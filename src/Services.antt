-- ===== src/Services.antt =====
-- The engine's services that are one call each: the clock, identities, the module's panel, paths and
-- texts (c/src/wctime.c, identity.c, module.c, path.c and errors.c).
pub mod Clock
pub mod Identity
pub mod Panel
pub mod Paths
pub mod Texts
use cmee1y1_clients.Base.{ℕ, ◌+◌, Option, none, some, List, length, take, ltb, if◌then◌else◌}
use cmee1y1_clients.Memory.{Buffer, st_u8, memcpy}
use cmee1y1_clients.State.{M, fail}
use cmee1y1_clients.State.Code

-- The path of 254 bytes at most, which the files' fill functions write first, with its NUL.
unfoldable pub path_fill : List ℕ → Buffer → Buffer
path_fill path p = let name = take 254 path in st_u8 (memcpy p 0x78 name) (0x78 + length name) 0

-- The guards on the path.
abbrev pub with_path {ℓ} : {W : Type 0} {A : Type ℓ} → (List ℕ → M W A) → Option (List ℕ) → M W A
with_path m none = fail Code.null_arg
with_path m (some path) = if ltb 254 (length path) then fail Code.param_range else m path

-- A spec without a fill function writes nothing.
abbrev pub no_fill : Buffer → Buffer
no_fill p = p
