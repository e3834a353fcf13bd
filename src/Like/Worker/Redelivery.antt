-- ===== src/Like/Worker/Redelivery.antt =====
-- Entries that are delivered again.
use vidmerce.Prelude.{
  ◌≡◌, ◌∙◌, ap, refl, sym, Bool, true, false, ◌&&◌, List, [], ◌∷◌, ◌==◌, Option-cases, Bool-cases,
  inl, inr, All, ◌⊎◌,
}
use vidmerce.Uuid.{Uuid, UuidText}
use vidmerce.Redis.{Message}
use vidmerce.Like.Repository.{has_edge, stored}
use vidmerce.Like.Repository.Counts.{IsSound}
use vidmerce.Like.Repository.Settled.{has_count, apply-has_count, stored-ext}
use vidmerce.Like.Worker.{World, Delivery, parse_event, process, process_all}
use vidmerce.Like.Worker.Outcomes.{
  effect, outcome, IsDeliverable, messages, process_all-has_edge, process_all-IsDeliverable,
  process-malformed, process-event, process_all-IsSound,
}

module _ (T : UuidText) where
  effect-cases :
      (u v : Uuid) (m : Message)
      → ((b : Bool) → effect T u v m b ≡ b) ⊎ (effect T u v m true ≡ effect T u v m false)
  unfolding effect
  effect-cases u v m = elim (Option-cases (parse_event T m)) [
    | inl n ↦ inl (λ b. rw (n, effect))
    | inr (ev, n) ↦ elim (Bool-cases (ev.user_id == u && ev.video_id == v)) [
      | inl same ↦ inr (rw (n, effect) (rw same))
      | inr other ↦ inl (λ b. rw (n, effect) (rw other))
    ]
  ]

  same_of_const : (f : Bool → Bool) → f true ≡ f false → (a b : Bool) → f a ≡ f b
  same_of_const f h true true = refl
  same_of_const f h true false = h
  same_of_const f h false true = sym h
  same_of_const f h false false = refl

  -- A list of entries either leaves an edge as it is or settles it.
  outcome-cases :
      (u v : Uuid) (ms : List Message)
      → ((b : Bool) → outcome T u v ms b ≡ b) ⊎ (outcome T u v ms true ≡ outcome T u v ms false)
  unfolding outcome
  outcome-cases u v [] = inl (λ b. refl)
  outcome-cases u v (m ∷ ms) = elim (outcome-cases u v ms) [
    | inr e ↦ inr (same_of_const (outcome T u v ms) e (effect T u v m true) (effect T u v m false))
    | inl f ↦ elim (effect-cases u v m) [
      | inl g ↦ inl (λ b. f (effect T u v m b) ∙ g b)
      | inr g ↦ inr (ap (outcome T u v ms) g)
    ]
  ]

  outcome_twice :
      (u v : Uuid) (ms : List Message) (b : Bool)
      → outcome T u v ms (outcome T u v ms b) ≡ outcome T u v ms b
  outcome_twice u v ms b = elim (outcome-cases u v ms) [
    | inl f ↦ f (outcome T u v ms b)
    | inr e ↦ same_of_const (outcome T u v ms) e (outcome T u v ms b) b
  ]

  has_edge-twice :
      (dls : List Delivery) (w : World) (u v : Uuid)
      → All (IsDeliverable T w.db) dls
      → let once = process_all T dls w in
        has_edge u v (process_all T dls once).db.likes ≡ has_edge u v once.db.likes
  has_edge-twice dls w u v h =
      let once = process_all T dls w in
      let first = process_all-has_edge T dls w u v h in
      process_all-has_edge T dls once u v (process_all-IsDeliverable T dls dls w h)
      ∙ ap (outcome T u v (messages T dls)) first
      ∙ outcome_twice u v (messages T dls) (has_edge u v w.db.likes)
      ∙ sym first

  process-has_count :
      (dl : Delivery) (w : World) (v : Uuid)
      → has_count (stored v (process T dl w).db.video_stats) ≡ has_count (stored v w.db.video_stats)
  process-has_count dl w v = elim (Option-cases (parse_event T dl.message)) [
    | inl bad ↦ rw (process-malformed T dl w bad) refl
    | inr (e, good) ↦
        rw (process-event T dl w e good)
          (apply-has_count dl.up e.user_id e.video_id e.op dl.now w.db v)
  ]

  process_all-has_count :
      (dls : List Delivery) (w : World) (v : Uuid)
      → has_count (stored v (process_all T dls w).db.video_stats)
        ≡ has_count (stored v w.db.video_stats)
  unfolding process_all
  process_all-has_count [] w v = refl
  process_all-has_count (dl ∷ dls) w v =
      process_all-has_count dls (process T dl w) v ∙ process-has_count dl w v

  -- From a database where no edge stands twice and the counters are exact, a batch that is delivered
  -- again, whole and in order, leaves every edge and every counter as its first delivery did, when
  -- every statement gets through and the users and videos exist.
  pub redelivery :
      (dls : List Delivery) (w : World) (u v : Uuid)
      → IsSound w.db
      → All (IsDeliverable T w.db) dls
      → let once = process_all T dls w in
        let twice = process_all T dls once in
        (has_edge u v twice.db.likes ≡ has_edge u v once.db.likes)
        × (stored v twice.db.video_stats ≡ stored v once.db.video_stats)
  redelivery dls w u v s h =
      let once = process_all T dls w in
      let sound = process_all-IsSound T dls w s in
      (
        has_edge-twice dls w u v h,
        stored-ext v (process_all T dls once).db once.db (process_all-IsSound T dls once sound)
            sound (λ x y. has_edge-twice dls w x y h) (process_all-has_count dls once v),
      )
