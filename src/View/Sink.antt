-- ===== src/View/Sink.antt =====
-- The ClickHouse sink of internal/view/worker.go. The driver is the argument `Calls`: whether it
-- prepares a batch, takes each row and sends it.
use mathlib.Core.List.{append-nil}
use vidmerce.Prelude.{
  ℕ, suc, Bool, true, false, List, [], ◌∷◌, ◌++◌, Option, none, some, Bytes, text, map, beq,
  if◌then◌else◌, ◌≡◌, ◌⊎◌, ◌∙◌, ap, refl, sym, filter, filter-none, arith, Bool-cases, Option-cases,
  inl, inr,
}
use vidmerce.Prelude.Int.{ℤ}
use vidmerce.Uuid.{Uuid}
use vidmerce.View.{Event}

-- A row of `video_views`.
pub record Row : Type 0 where
  pub event_time : ℤ
  pub video_id : Uuid
  pub viewer_id : Option Uuid
  pub ip_hash : Bytes
  pub country : Bytes
  pub ua_hash : Bytes
  pub is_unique : ℕ

-- How `Send` ends: an error may come after some of the rows have been written, those
-- that a test picks.
pub data Sending : Type 0 where
  sent : Sending
  failed_after : (Row → Bool) → Sending

pub record Calls : Type 0 where
  pub prepare_up : Bool
  pub append_up : ℕ → Bool
  pub sending : Sending

unfoldable pub row_of : Event → Row
row_of e = record {
  event_time = e.event_time;
  video_id = e.video_id;
  viewer_id = e.viewer_id;
  ip_hash = e.ip_hash;
  country = if beq e.country [] then text "ZZ" else e.country;
  ua_hash = e.ua_hash;
  is_unique = if e.is_unique then 1 else 0;
}

-- The loop over the events: `none` at the first row that the driver refuses.
unfoldable pub append_rows : Calls → ℕ → List Event → Option (List Row)
append_rows c n [] = some []
append_rows c n (e ∷ es) = elim (append_rows c (suc n) es) [
  | none ↦ none
  | some rows ↦ if c.append_up n then some (row_of e ∷ rows) else none
]

unfoldable pub send : Sending → List Row → Option (List Row) → Bool × List Row
send o table none = (false, table)
send sent table (some rows) = (true, table ++ rows)
send (failed_after written) table (some rows) = (false, table ++ filter written rows)

-- `Insert`: whether it succeeds, and the table after it.
unfoldable pub insert : Calls → List Event → List Row → Bool × List Row
unfolding send
insert c [] table = (true, table)
insert c (e ∷ es) table =
    let rows = append_rows c 0 (e ∷ es) in
    if c.prepare_up then send c.sending table rows else (false, table)

append_rows-map :
    (c : Calls) (n : ℕ) (es : List Event) (rows : List Row)
    → append_rows c n es ≡ some rows
    → rows ≡ map row_of es
unfolding append_rows
append_rows-map c n [] rows h = ground arith
append_rows-map c n (e ∷ es) rows h = elim (Option-cases (append_rows c (suc n) es)) [
  | inl off ↦ ground (arith, off)
  | inr (rest, on) ↦ elim (Bool-cases (c.append_up n)) [
    | inl up ↦ ground (arith, append_rows-map c (suc n) es rest on)
    | inr down ↦ ground arith
  ]
]

unwritten : (table rows : List Row) → table ≡ table ++ filter (λ r. false) rows
unwritten table rows =
    sym (append-nil table) ∙ ap (λ x. table ++ x) (sym (filter-none (λ r. false) rows (λ r. refl)))

send-rows :
    (o : Sending) (table rows : List Row)
    → (((send o table (some rows)).0 ≡ true) × ((send o table (some rows)).1 ≡ table ++ rows))
      ⊎ (((send o table (some rows)).0 ≡ false)
          × (written : Row → Bool) × ((send o table (some rows)).1 ≡ table ++ filter written rows))
unfolding send
send-rows sent table rows = inl (refl, refl)
send-rows (failed_after written) table rows = inr (refl, written, refl)

-- A success has added one row for each event, in order; after an error some of these rows, or
-- none, are there all the same.
pub insert-rows :
    (c : Calls) (es : List Event) (table : List Row)
    → (((insert c es table).0 ≡ true) × ((insert c es table).1 ≡ table ++ map row_of es))
      ⊎ (((insert c es table).0 ≡ false)
          × (written : Row → Bool) × ((insert c es table).1
              ≡ table ++ filter written (map row_of es)))
unfolding insert
insert-rows c [] table = inl (refl, sym (append-nil table))
insert-rows c (e ∷ es) table = elim (Bool-cases c.prepare_up) [
  | inr down ↦
      let kept : (insert c (e ∷ es) table).1 ≡ table = ground (arith, down) in
      inr (ground (arith, down), (λ r. false), kept ∙ unwritten table (map row_of (e ∷ es)))
  | inl up ↦ elim (Option-cases (append_rows c 0 (e ∷ es))) [
    | inl refused ↦
        let kept : (insert c (e ∷ es) table).1 ≡ table = ground (arith, up, refused) in
        inr
          (ground (arith, up, refused), (λ r. false), kept ∙ unwritten table (map row_of (e ∷ es)))
    | inr (rows, ok) ↦
        let same = append_rows-map c 0 (e ∷ es) rows ok in
        elim (send-rows c.sending table rows) [
          | inl (done, all) ↦
              inl (ground (arith, up, ok, done), rw (ok, up) (all ∙ ap (λ x. table ++ x) same))
          | inr (error, written, some_rows) ↦ inr (
            ground (arith, up, ok, error),
            written,
            rw (ok, up) (some_rows ∙ ap (λ x. table ++ filter written x) same),
          )
        ]
  ]
]
