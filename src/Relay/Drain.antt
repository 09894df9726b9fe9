-- ===== src/Relay/Drain.antt =====
-- A drain that returns has delivered and stamped what was unpublished, and one whose deliveries succeed
-- returns: services/relay/src/store.memory.ts.
use lms_saas.Prelude.{
  ℕ, suc, ◌+◌, ◌≡◌, refl, ap, subst, ◌∙◌, inl, inr, Bool-cases, Bool, true, some, List, [], ◌∷◌,
  map, Text, text_eq, ℕ_eq, any, filter, length, arith,
}
use mathlib.Core.List.{Permᴰ}
use lms_saas.Relay.Store.{
  OutboxRow, EventEnvelope, envelope_from_row, Delivery, stamp, is_pending, sort_by_occurred_at,
  pending_of, drain_rows, drain_tenant,
}
use lms_saas.Relay.Pending.{
  at_position, Covers, none_left, Covers-stamp, indexed-covers, length-indexed, map-indexed,
  any-sort, length-sort, sort-perm, unstamped, stamp-kept,
}

module _ (precedes : Text → Text → Bool) where
  module _ {W : Type 0} (deliver : Delivery W) (clock : Text → ℕ → Text) where
    -- The rows are delivered one after another, from one world to the other, and no delivery throws.
    abbrev pub Delivered : List OutboxRow → W → W → Type 0
    Delivered [] w after = after ≡ w
    Delivered (r ∷ rs) w after =
        ((deliver (envelope_from_row r) w).0 ≡ true)
        × Delivered rs (deliver (envelope_from_row r) w).1 after

    -- The rows stay, in their order, with all but their stamps.
    drain_rows-kept :
        (tenant : Text) (todo : List (ℕ × OutboxRow)) (n : ℕ) (rows : List OutboxRow) (w : W)
        → map unstamped (drain_rows precedes deliver clock tenant todo n rows w).rows
          ≡ map unstamped rows
    unfolding drain_rows
    drain_rows-kept tenant [] n rows w = refl
    drain_rows-kept tenant (r ∷ todo) n rows w = ground (
      arith,
      drain_rows-kept tenant todo (suc n) (stamp r.0 (clock tenant n) rows)
          (deliver (envelope_from_row r.1) w).1,
      stamp-kept r.0 (clock tenant n) rows,
    )

    drain_rows-next :
        (tenant : Text) (r : ℕ × OutboxRow) (todo : List (ℕ × OutboxRow)) (n : ℕ)
        (rows : List OutboxRow) (w : W)
        → (deliver (envelope_from_row r.1) w).0 ≡ true
        → drain_rows precedes deliver clock tenant (r ∷ todo) n rows w
          ≡ drain_rows precedes deliver clock tenant todo
              (suc n)
              (stamp r.0 (clock tenant n) rows)
              (deliver (envelope_from_row r.1) w).1
    unfolding drain_rows
    drain_rows-next tenant r todo n rows w h = rw (h, drain_rows) refl

    drain_rows-drained :
        (tenant : Text) (todo : List (ℕ × OutboxRow)) (n m : ℕ) (rows : List OutboxRow) (w : W)
        → Covers tenant todo rows
        → (drain_rows precedes deliver clock tenant todo n rows w).published ≡ some m
        → (m ≡ n + length todo)
          × (filter
                (is_pending tenant)
                (drain_rows precedes deliver clock tenant todo n rows w).rows
              ≡ [])
          × Delivered
              (map (λ r. r.1) todo)
              w
              (drain_rows precedes deliver clock tenant todo n rows w).world
    unfolding drain_rows
    drain_rows-drained tenant [] n m rows w c h = (ground arith, none_left tenant rows c, refl)
    drain_rows-drained tenant (r ∷ todo) n m rows w c h =
        let d = deliver (envelope_from_row r.1) w in
        let later =
          drain_rows-drained tenant todo (suc n) m (stamp r.0 (clock tenant n) rows) d.1
            (Covers-stamp tenant (clock tenant n) r todo rows c) in
        elim (Bool-cases d.0) [
          | inr thrown ↦ absurd (ground (arith, thrown, h))
          | inl ok ↦
              let (count, none_pending, delivered) = later (ground (arith, ok, h)) in
              rw (drain_rows-next tenant r todo n rows w ok)
                (omega (arith, count), none_pending, (ok, delivered))
        ]

    -- A drain that returns has delivered every row of the tenant that was unpublished, each once and
    -- none with an error, one after another in some order, and has stamped them all: the number it
    -- answers is the number of those rows, the outbox has the rows it had, but for their stamps, and no
    -- row of the tenant is unpublished.
    pub drain_tenant-drained :
        (rows : List OutboxRow) (tenant : Text) (w : W) (m : ℕ)
        → (drain_tenant precedes deliver clock rows tenant w).published ≡ some m
        → ((order : List OutboxRow) × Permᴰ order (filter (is_pending tenant) rows)
            × Delivered order w (drain_tenant precedes deliver clock rows tenant w).world)
          × (m ≡ length (filter (is_pending tenant) rows))
          × (map unstamped (drain_tenant precedes deliver clock rows tenant w).rows
              ≡ map unstamped rows)
          × (filter (is_pending tenant) (drain_tenant precedes deliver clock rows tenant w).rows
              ≡ [])
    unfolding drain_tenant
    drain_tenant-drained rows tenant w m h =
        let todo = pending_of precedes rows tenant in
        let sorted = sort_by_occurred_at precedes todo in
        let covers : Covers tenant sorted rows = λ k r found pending.
          any-sort precedes (at_position k) todo
          ∙ subst (λ j. any (at_position j) todo ≡ true) (omega arith)
              (indexed-covers tenant 0 k rows r found pending) in
        let (count, none_pending, delivered) =
          drain_rows-drained tenant sorted 0 m rows w covers h in
        (
          (
            map (λ r. r.1) sorted,
            subst (Permᴰ (map (λ r. r.1) sorted)) (map-indexed tenant 0 rows)
                (sort-perm precedes todo),
            delivered,
          ),
          ground (arith, count, length-sort precedes todo, length-indexed tenant 0 rows),
          drain_rows-kept tenant sorted 0 rows w,
          none_pending,
        )

    drain_rows-returns :
        ((e : EventEnvelope) (w : W) → (deliver e w).0 ≡ true)
        → (tenant : Text) (todo : List (ℕ × OutboxRow)) (n : ℕ) (rows : List OutboxRow) (w : W)
        → (drain_rows precedes deliver clock tenant todo n rows w).published
          ≡ some (n + length todo)
    unfolding drain_rows
    drain_rows-returns ok tenant [] n rows w = ground arith
    drain_rows-returns ok tenant (r ∷ todo) n rows w = ground (
      arith,
      ok (envelope_from_row r.1) w,
      drain_rows-returns ok tenant todo (suc n) (stamp r.0 (clock tenant n) rows)
          (deliver (envelope_from_row r.1) w).1,
    )

    -- Where no delivery throws, a drain returns: it answers the number of the tenant's unpublished
    -- rows, and leaves none.
    pub drain_tenant-returns :
        ((e : EventEnvelope) (w : W) → (deliver e w).0 ≡ true)
        → (rows : List OutboxRow) (tenant : Text) (w : W)
        → ((drain_tenant precedes deliver clock rows tenant w).published
            ≡ some (length (filter (is_pending tenant) rows)))
          × (filter (is_pending tenant) (drain_tenant precedes deliver clock rows tenant w).rows
              ≡ [])
    unfolding drain_tenant
    drain_tenant-returns ok rows tenant w =
        let todo = pending_of precedes rows tenant in
        let returns = drain_rows-returns ok tenant (sort_by_occurred_at precedes todo) 0 rows w in
        let count : 0 + length (sort_by_occurred_at precedes todo)
            ≡ length (filter (is_pending tenant) rows) =
          ground (arith, length-sort precedes todo, length-indexed tenant 0 rows) in
        let answer = returns ∙ ap some count in
        (
          answer,
          (drain_tenant-drained rows tenant w (length (filter (is_pending tenant) rows)) answer).3,
        )
