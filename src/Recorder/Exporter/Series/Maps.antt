-- ===== src/Recorder/Exporter/Series/Maps.antt =====
-- io-bilive-recorder/metrics.go: the maps of rooms of the exporter, and the labels of a series.
use focot_services.Prelude.{
  if◌then◌else◌, Option-cases, is_yes, contains, keys, lookup, insert, delete, lookup-insert,
  lookup-delete, contains-keys, Text, text_dec, ◌≡◌, refl, ◌⊎◌, inl, inr, Bool, true, false, ◌&&◌,
  none, some, arith,
}
use focot_services.Prelude.Int.{ℤ, ℤ_discrete, itoa-injective}
use focot_services.Prelude.Results.{ok, err, nil_map_write}
use focot_services.Recorder.Exporter.{
  texts_dec, RoomMap, room_lookup, room_insert, rooms_of, room_delete, room_series,
}

-- Whether two entries of a map of rooms are the same.
abbrev pub same_room : Text → ℤ → Text → ℤ → Bool
same_room node room n r = is_yes (text_dec node n) && is_yes (ℤ_discrete room r)

module _ {V : Type 0} where
  -- An insertion sets one entry.
  pub room_lookup-insert :
      (node : Text) (room : ℤ) (v : V) (m m' : RoomMap V) (n : Text) (r : ℤ)
      → room_insert node room v m ≡ ok m'
      → room_lookup n r m' ≡ (if same_room node room n r then some v else room_lookup n r m)
  unfolding room_insert
  room_lookup-insert node room v m m' n r h = elim (Option-cases (lookup text_dec node m)) [
    | inl e ↦ absurd (let no : err nil_map_write ≡ ok m' = rw (room_insert, e) at h in cc)
    | inr (rooms, e) ↦
        let is : ok (insert text_dec node (insert ℤ_discrete room v rooms) m) ≡ ok m' =
          rw (room_insert, e) at h in
        ground (
          arith,
          lookup-insert text_dec node n (insert ℤ_discrete room v rooms) m,
          lookup-insert ℤ_discrete room r v rooms,
        )
  ]

  -- A deletion drops one entry.
  pub room_lookup-delete :
      (node : Text) (room : ℤ) (m : RoomMap V) (n : Text) (r : ℤ)
      → room_lookup n r (room_delete node room m)
        ≡ (if same_room node room n r then none else room_lookup n r m)
  unfolding room_delete
  room_lookup-delete node room m n r = elim (Option-cases (lookup text_dec node m)) [
    | inl e ↦ ground arith
    | inr (rooms, e) ↦ ground (
      arith,
      lookup-insert text_dec node n (delete ℤ_discrete room rooms) m,
      lookup-delete ℤ_discrete room r rooms,
    )
  ]

  -- The rooms of a node are those that a lookup finds.
  pub contains-rooms_of :
      (n : Text) (r : ℤ) (m : RoomMap V)
      → contains ℤ_discrete (keys (rooms_of n m)) r
        ≡ elim (room_lookup n r m) [ none ↦ false | some _ ↦ true ]
  contains-rooms_of n r m = elim (Option-cases (lookup text_dec n m)) [
    | inl e ↦ rw (rooms_of, e) refl
    | inr (rooms, e) ↦ rw (rooms_of, e) (contains-keys ℤ_discrete r rooms)
  ]

-- The labels of two rooms are the same only for one room of one node.
pub room_series_dec :
    (node : Text) (room : ℤ) (n : Text) (r : ℤ)
    → is_yes (texts_dec (room_series node room) (room_series n r)) ≡ same_room node room n r
room_series_dec node room n r = ground (arith, itoa-injective room r)

-- Another room, or the same.
pub same_room-cases :
    (node : Text) (room : ℤ) (n : Text) (r : ℤ)
    → ((same_room node room n r ≡ true) × (node ≡ n) × (room ≡ r))
      ⊎ (same_room node room n r ≡ false)
same_room-cases node room n r =
    elim (text_dec node n)
      as (λ d.
        ((is_yes d && is_yes (ℤ_discrete room r)) ≡ true × node ≡ n × room ≡ r)
        ⊎ ((is_yes d && is_yes (ℤ_discrete room r)) ≡ false)) [
          | yes p ↦
              elim (ℤ_discrete room r)
                as (λ d. (is_yes d ≡ true × node ≡ n × room ≡ r) ⊎ (is_yes d ≡ false)) [
                  | yes q ↦ inl (refl, p, q)
                  | no _ ↦ inr refl
                ]
          | no _ ↦ inr refl
        ]
