-- ===== src/Recorder/Sync/Messages.antt =====
-- io-bilive-recorder/dataSync.go: what a request sends, and the states that it leaves.
use focot_services.Prelude.{
  length, keep, Text, codes, ℕ, ◌+◌, ◌≡◌, sym, ap, ◌∙◌, Option, none, some, List, [], ◌∷◌, ◌++◌,
  map, append_assoc, append-nil, arith,
}
use focot_services.Prelude.Int.{ℤ}
use focot_services.Prelude.Results.{Result, ok, err, Fault, nil_dereference}
use focot_services.Recorder.Rooms.{Room}
use focot_services.Recorder.Cdn.{Cdn}
use focot_services.Recorder.Sync.{
  TaskStatus, Answer, rooms_read, Sent, update_sent, published, Stream, with_hosts, Reported,
  history_subject, publish_room, report_room, report_rooms, update_of, started,
}

module _ (Float : Type 0) where
  abbrev pub recorded : List (Room Float) → List (Room Float)
  recorded rooms = keep (λ r. r.recording) rooms

  abbrev pub ids : List (Room Float) → List ℤ
  ids rooms = map (λ r. r.room_id) rooms

  -- The history of some rooms: what JSON can write of them.
  abbrev pub histories : Stream Float → Text → ℕ → List (Room Float) → List (Sent Float)
  histories st server time [] = []
  histories st server time (r ∷ rooms) =
      let rest = histories st server time rooms in
      elim (st.marshal_room (record r { record_time = some time })) [
        | none ↦ rest
        | some bytes ↦
            published (history_subject Float st.stream_name server r.room_id) bytes ∷ rest
      ]

  -- What a request is to send about rooms that it has read.
  abbrev pub room_messages :
      Stream Float → Cdn → Text → List (Room Float) → ℕ → ℕ → List (Sent Float)
  room_messages st cdn server read duration time =
      let rooms = with_hosts Float cdn read in
      update_sent (update_of Float server duration rooms)
      ∷ (histories st server time (recorded rooms)
          ++ published (st.stream_name ++ codes ".rooms." ++ server)
              (st.marshal_ids (ids (recorded rooms)))
            ∷ [])

  -- The rooms of a list with no null in it.
  abbrev one_more : Room Float → Option (List (Room Float)) → Option (List (Room Float))
  one_more r none = none
  one_more r (some rooms) = some (r ∷ rooms)

  abbrev pub all_rooms : List (Option (Room Float)) → Option (List (Room Float))
  all_rooms [] = some []
  all_rooms (none ∷ rooms) = none
  all_rooms (some r ∷ rooms) = one_more r (all_rooms rooms)

  -- What a request is to send, and the panic at a null among the rooms.
  abbrev pub on_read :
      Stream Float
      → Cdn
      → Text
      → ℕ
      → ℕ
      → Option (List (Room Float))
      → Result Fault (List (Sent Float))
  on_read st cdn server duration time none = err nil_dereference
  on_read st cdn server duration time (some rooms) =
      ok (room_messages st cdn server rooms duration time)

  abbrev pub messages :
      Stream Float → Cdn → Text → Answer Float → ℕ → ℕ → Result Fault (List (Sent Float))
  messages st cdn server (rooms_read read) duration time =
      on_read st cdn server duration time (all_rooms read)
  messages st cdn server a duration time =
      ok (update_sent (update_of Float server duration []) ∷ [])

  -- What is sent by a request, if it does not panic.
  abbrev pub sent_by :
      Result Fault (TaskStatus × List (Sent Float)) → Result Fault (List (Sent Float))
  sent_by (ok (status, sent)) = ok sent
  sent_by (err fault) = err fault

  abbrev panic_or : Option (List (Room Float)) → Result Fault (List (Room Float))
  panic_or none = err nil_dereference
  panic_or (some rooms) = ok rooms

  -- What the loop adds.
  record Added (st : Stream Float) (server : Text) (time : ℕ) (rooms : List (Room Float))
      (p q : Reported Float) : Type 0 where
    sends : q.sent ≡ p.sent ++ histories st server time (recorded rooms)
    lists : q.room_id_list ≡ p.room_id_list ++ ids (recorded rooms)
    counts : q.updated + q.update_error ≡ p.updated + p.update_error + length (recorded rooms)

  report_room-Added :
      (st : Stream Float) (server : Text) (time : ℕ) (r : Room Float) (p : Reported Float)
      → Added st server time (r ∷ []) p (report_room Float st server time r p)
  unfolding report_room publish_room
  report_room-Added st server time r p = record {
    sends = ground (arith, append-nil p.sent);
    lists = ground (arith, append-nil p.room_id_list);
    counts = ground arith;
  }

  histories-cons :
      (st : Stream Float) (server : Text) (time : ℕ) (r : Room Float) (rooms : List (Room Float))
      → histories st server time (recorded (r ∷ rooms))
        ≡ histories st server time (recorded (r ∷ [])) ++ histories st server time (recorded rooms)
  histories-cons st server time r rooms = ground arith

  ids-cons :
      (r : Room Float) (rooms : List (Room Float))
      → ids (recorded (r ∷ rooms)) ≡ ids (recorded (r ∷ [])) ++ ids (recorded rooms)
  ids-cons r rooms = ground arith

  length-cons :
      (r : Room Float) (rooms : List (Room Float))
      → length (recorded (r ∷ rooms)) ≡ length (recorded (r ∷ [])) + length (recorded rooms)
  length-cons r rooms = ground arith

  Added-then :
      (st : Stream Float) (server : Text) (time : ℕ) (r : Room Float) (rooms : List (Room Float))
      (p q q' : Reported Float)
      → Added st server time (r ∷ []) p q
      → Added st server time rooms q q'
      → Added st server time (r ∷ rooms) p q'
  Added-then st server time r rooms p q q' one more = record {
    sends =
        more.sends
        ∙ ap (λ l. l ++ histories st server time (recorded rooms)) one.sends
        ∙ append_assoc p.sent _ _
        ∙ ap (λ l. p.sent ++ l) (sym (histories-cons st server time r rooms));
    lists =
        more.lists
        ∙ ap (λ l. l ++ ids (recorded rooms)) one.lists
        ∙ append_assoc p.room_id_list _ _
        ∙ ap (λ l. p.room_id_list ++ l) (sym (ids-cons r rooms));
    counts = omega (arith, one.counts, more.counts, length-cons r rooms);
  }

  report_rooms-Added :
      (st : Stream Float) (server : Text) (time : ℕ) (rooms : List (Room Float))
      (p : Reported Float)
      → Added st server time rooms p (report_rooms Float st server time rooms p)
  unfolding report_rooms
  report_rooms-Added st server time [] p = record {
    sends = sym (append-nil p.sent);
    lists = sym (append-nil p.room_id_list);
    counts = ground arith;
  }
  report_rooms-Added st server time (r ∷ rooms) p =
      let q = report_room Float st server time r p in
      Added-then st server time r rooms p q (report_rooms Float st server time rooms q)
        (report_room-Added st server time r p) (report_rooms-Added st server time rooms q)

  -- Each room that is recording is counted once, as updated or as an error.
  pub report_rooms_counted :
      (st : Stream Float) (server : Text) (duration time : ℕ) (rooms : List (Room Float))
      (s : TaskStatus)
      → let p = report_rooms Float st server time rooms (started Float server duration rooms s) in
        p.updated + p.update_error ≡ length (recorded rooms)
  report_rooms_counted st server duration time rooms s = omega (
    arith,
    (report_rooms-Added st server time rooms (started Float server duration rooms s)).counts,
  )
