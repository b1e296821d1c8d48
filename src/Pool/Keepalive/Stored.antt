-- ===== src/Pool/Keepalive/Stored.antt =====
-- A client's pools when a pool was stored twice around a request (c/src/pool.c).
use mathlib.Core.Path.{subst⁻¹}
use cmee1y1_clients.Base.{
  ℕ, ◌<◌, ◌≡◌, ◌≢◌, ap, ◌∙◌, List, set, get_or, length, length-set, get_or-set_self, get_or-set_ne,
}
use cmee1y1_clients.State.{Pool, Client}
use cmee1y1_clients.Pool.{zeroed}
use cmee1y1_clients.Pool.Lifecycle.{pool_at}
use cmee1y1_clients.Pool.Keepalive.Turns.{InOrder, InOrder-refl, InOrder-trans}

-- What a turn for the pool of a slot leaves: this pool in order, and the others as they were.
pub record Turned {W : Type 0} (slot : ℕ) (c d : Client W) : Type 0 where
  pub in_order : InOrder (pool_at c slot) (pool_at d slot)
  pub others : (k : ℕ) → slot ≢ k → pool_at d k ≡ pool_at c k
  pub slots : length d.pools ≡ length c.pools

module _ {W : Type 0} (slot : ℕ) where
  pub Turned-same : (c d : Client W) → d.pools ≡ c.pools → Turned slot c d
  Turned-same c d e = record {
    in_order =
        subst⁻¹ (λ (ps : List Pool). InOrder (pool_at c slot) (get_or ps slot zeroed)) e
          (InOrder-refl _);
    others = λ k h. ap (λ (ps : List Pool). get_or ps k zeroed) e;
    slots = ap (λ (ps : List Pool). length ps) e;
  }

  pub Turned-trans : {c d e : Client W} → Turned slot c d → Turned slot d e → Turned slot c e
  Turned-trans a b = record {
    in_order = InOrder-trans a.in_order b.in_order;
    others = λ k h. b.others k h ∙ a.others k h;
    slots = b.slots ∙ a.slots;
  }

  -- The pool is stored with a marked entry, a request leaves the pools alone, and the pool is stored
  -- again.
  pub Turned-twice :
      (p : Pool) (q : Pool → Pool) (c d e : Client W)
      → slot < length c.pools
      → d.pools ≡ set c.pools slot p
      → e.pools ≡ set d.pools slot (q (pool_at d slot))
      → InOrder (pool_at c slot) (q p)
      → Turned slot c e
  Turned-twice p q c d e low marked stored h =
      let there : slot < length (set c.pools slot p) =
        subst⁻¹ (λ (n : ℕ). slot < n) (length-set c.pools slot p) low in
      let here : pool_at d slot ≡ p =
        ap (λ (ps : List Pool). get_or ps slot zeroed) marked
        ∙ get_or-set_self c.pools slot p zeroed low in
      let end : e.pools ≡ set (set c.pools slot p) slot (q p) =
        stored
        ∙ ap (λ (ps : List Pool). set ps slot (q (pool_at d slot))) marked
        ∙ ap (λ (x : Pool). set (set c.pools slot p) slot (q x)) here in
      record {
        in_order =
            subst⁻¹ (InOrder (pool_at c slot))
              (ap (λ (ps : List Pool). get_or ps slot zeroed) end
                ∙ get_or-set_self (set c.pools slot p) slot (q p) zeroed there)
              h;
        others = λ k differs.
            ap (λ (ps : List Pool). get_or ps k zeroed) end
            ∙ get_or-set_ne (set c.pools slot p) slot k (q p) zeroed differs
            ∙ get_or-set_ne c.pools slot k p zeroed differs;
        slots =
            ap (λ (ps : List Pool). length ps) end
            ∙ length-set (set c.pools slot p) slot (q p)
            ∙ length-set c.pools slot p;
      }
