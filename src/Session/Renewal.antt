-- ===== src/Session/Renewal.antt =====
-- What a reconnect leaves (c/src/client.c).
use cmee1y1_clients.Base.{
  ℕ, zero, suc, ◌+◌, ◌≤◌, ◌<◌, ◌≡◌, ◌≢◌, refl, ap, sym, ◌∙◌, ◌⊎◌, inl, inr, Bool, true, false,
  Option, none, some, List, [], ◌∷◌, arith, Result, ok, err, subst, All, if◌then◌else◌, eq_or_ne,
}
use cmee1y1_clients.State.{Client, Env, TagCache, Pool}
use cmee1y1_clients.State.Code
use cmee1y1_clients.Conn.Table.{Distinct}
use cmee1y1_clients.Pool.{max_slots, any_busy}
use cmee1y1_clients.Pool.Lifecycle.{pool_at}
use cmee1y1_clients.Pool.Closing.{bp_client_pool_close}
use cmee1y1_clients.Pool.Closing.Closed.{PoolClosed, Ended, pool_close-Ended}
use cmee1y1_clients.Tags.Cache.{zeroed_cache, bp_tag_cache_free_all}
use cmee1y1_clients.Session.{Session, all_open, close_pools, go_on, after_close, drop_caches}
use cmee1y1_clients.Session.Start.{Os, Opening, open_ipc, renewed, bp_client_reconnect}
use cmee1y1_clients.Session.Complete.{Complete, open_ipc-Complete}

-- All caches are unused after they were freed.
pub freed_unused :
    (cs : List TagCache) → All (λ (k : TagCache). k.in_use ≡ false) (bp_tag_cache_free_all cs)
unfolding bp_tag_cache_free_all
freed_unused [] = tt
freed_unused (c ∷ cs) = (either c.in_use refl, freed_unused cs)
  where
    either : (b : Bool) → c.in_use ≡ b → (if b then zeroed_cache else c).in_use ≡ false
    either true e = refl
    either false e = e

-- No pool with a slot below `n` is open, and those from there on are the ones of `c`.
abbrev pub ClosedBelow : {W : Type 0} → Client W → ℕ → Client W → Type 0
ClosedBelow c n d =
    ((k : ℕ) → k < n → (pool_at d k).initialized ≡ false)
    × Distinct d.txrx_conns
    × ((k : ℕ) → n ≤ k → pool_at d k ≡ pool_at c k)

-- An open pool with a borrowed entry.
abbrev pub Borrowed : {W : Type 0} → Client W → Type 0
Borrowed c =
    (s : ℕ) × ((pool_at c s).initialized ≡ true)
    × (any_busy (pool_at c s).size (pool_at c s) ≡ true)

abbrev pub Closes : {W : Type 0} → Client W → ℕ → Option (Client W) → Type 0
Closes c n none = Borrowed c
Closes c n (some d) = ClosedBelow c n d

true-false : true ≢ false
true-false e = cc

module _ {W : Type 0} (env : Env W) where
  -- After the pool of slot `s` the pools below `s + 1` are closed.
  pool_close-ClosedBelow :
      (o : Client W) (s : ℕ) (c d : Client W)
      → ClosedBelow o s c
      → PoolClosed env s c d
      → ClosedBelow o (s + 1) d
  pool_close-ClosedBelow o s c d (before, distinct, later) closed = (
    λ k h. elim (eq_or_ne k s) [
      | inl same ↦
          ap (λ (j : ℕ). (pool_at d j).initialized) same
          ∙ ap (λ (p : Pool). p.initialized) closed.emptied
      | inr differs ↦
          ap (λ (p : Pool). p.initialized) (closed.others k (λ e. differs (sym e)))
          ∙ before k (omega (arith, h, differs))
    ],
    closed.distinct,
    λ k h. closed.others k (λ e. omega (arith, e, h)) ∙ later k (omega (arith, h)),
  )

  close_pools-Closes :
      (o : Client W) (n s : ℕ) (c : Client W)
      → s + n ≤ max_slots
      → ClosedBelow o s c
      → Closes o (s + n) (close_pools env n s c)
  unfolding close_pools
  close_pools-Closes o zero s c low before =
      subst (λ (m : ℕ). ClosedBelow o m c) (omega arith) before
  close_pools-Closes o (suc n) s c low before =
      subst (λ (m : ℕ). Closes o m (close_pools env (suc n) s c)) (omega arith)
        (at (pool_at c s).initialized refl
          (λ d. close_pools-Closes o n (s + 1) d (omega (arith, low))))
    where
      after :
          (pool_at c s).initialized ≡ true
          → ((d : Client W)
              → ClosedBelow o (s + 1) d
              → Closes o (s + 1 + n) (close_pools env n (s + 1) d))
          → (r : Option (Client W × Result (Unit {0}))) → Ended env s c r
          → Closes o (s + 1 + n) (after_close (close_pools env n (s + 1)) r)
      after opened rest none (open_, busy) =
          let same = before.2 s (omega arith) in
          (
            s,
            subst (λ (p : Pool). p.initialized ≡ true) same open_,
            subst (λ (p : Pool). any_busy p.size p ≡ true) same busy,
          )
      after opened rest (some (d, err x)) (same, code, large) = absurd (omega (arith, large, low))
      after opened rest (some (d, ok u)) (inl (same, closed)) =
          absurd (true-false (sym opened ∙ closed))
      after opened rest (some (d, ok u)) (inr (was, closed)) =
          rest d (pool_close-ClosedBelow o s c d before closed)

      at :
          (b : Bool)
          → (pool_at c s).initialized ≡ b
          → ((d : Client W)
              → ClosedBelow o (s + 1) d
              → Closes o (s + 1 + n) (close_pools env n (s + 1) d))
          → Closes o (s + 1 + n) (elim b [
            | true ↦ after_close (close_pools env n (s + 1)) (bp_client_pool_close env s c)
            | false ↦ close_pools env n (s + 1) c
          ])
      at true e rest =
          after e rest (bp_client_pool_close env s c) (pool_close-Ended env s c before.1)
      at false e rest = rest c (
        (λ k h. elim (eq_or_ne k s) [
          | inl same ↦ ap (λ (j : ℕ). (pool_at c j).initialized) same ∙ e
          | inr differs ↦ before.0 k (omega (arith, h, differs))
        ]),
        before.1,
        λ k h. before.2 k (omega (arith, h)),
      )

-- What a reconnect leaves; it does not return only if it waits for a borrowed entry.
abbrev pub Renewed : {W : Type 0} → Client W → Option (Session W × Result (Unit {0})) → Type 0
Renewed c none = Borrowed c
Renewed c (some (s, r)) =
    ((k : ℕ) → k < max_slots → (pool_at s.client k).initialized ≡ false)
    × All (λ (k : TagCache). k.in_use ≡ false) s.client.tag_caches
    × (((r ≡ ok tt) × (s.handles ≡ all_open)) ⊎ (r ≡ err Code.client_open))

module _ {W : Type 0} (env : Env W) (os : Os W) where
  renewed-Renewed :
      (b c : Client W) (o : Opening W)
      → ClosedBelow b max_slots c
      → Complete o
      → Renewed b (some (renewed (drop_caches c) o))
  renewed-Renewed b c (w, (h, true)) closed complete =
      (closed.0, freed_unused c.tag_caches, inl (refl, complete))
  renewed-Renewed b c (w, (h, false)) closed complete =
      (closed.0, freed_unused c.tag_caches, inr refl)

  -- Where no handle of a connection is in use twice: a reconnect returns unless an entry of an open
  -- pool is borrowed; after it all pools are closed and all symbol caches unused, whether it succeeded
  -- or not; and if it succeeded, the memory, the lock and all 32 semaphores are open.
  pub reconnect-Renewed :
      (s : Session W)
      → Distinct s.client.txrx_conns
      → Renewed s.client (bp_client_reconnect env os s)
  unfolding bp_client_reconnect
  reconnect-Renewed s distinct = after (close_pools env max_slots 0 s.client) (
      close_pools-Closes env s.client max_slots 0 s.client (omega arith)
        ((λ j low. absurd (omega (arith, low))), distinct, λ k h. refl))
    where
      after :
          (o : Option (Client W))
          → Closes s.client max_slots o
          → Renewed s.client
              (go_on (λ d. let e = drop_caches d in some (renewed e (open_ipc os e.world))) o)
      after none closed = closed
      after (some d) closed =
          renewed-Renewed s.client d (open_ipc os d.world) closed (open_ipc-Complete os d.world)
