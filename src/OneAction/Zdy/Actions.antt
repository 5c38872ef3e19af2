-- ===== src/OneAction/Zdy/Actions.antt =====
-- api-one-action/zdy-doors/actions.go: the two handlers. What the caller gets is a value; the
-- reading of the doors from JSON is a parameter.
use focot_services.Prelude.{
  if◌then◌else◌, Bool-cases, Text, codes, ℕ, ◌<◌, ◌≡◌, refl, inl, inr, false, Option, none, some,
  List, [], ◌∷◌, ◌++◌, arith,
}
use focot_services.Prelude.Int.{ℤ, itoa}
use focot_services.OneAction.Zdy.{
  CommonResponse, default_option, Ending, returned, failed, panicked, unfinished, Service, srv_url,
  is_empty, is_code, State, Op, refresh_token, do_request,
}
use focot_services.OneAction.Zdy.Retries.{
  is_unfinished, IsPatient, refresh_token_finishes, do_request_finishes,
}

-- `DoorDevsItem`
pub record Door : Type 0 where
  pub dev_code : Text
  pub dev_name : Text
  pub dev_address : Text
  pub dev_state : Text
  pub dev_type : Text

-- `echox.NormalErrorResponse` with its code, `echox.NormalResponse` and `echox.NormalEmptyResponse`.
pub data Answer : Type 0 where
  refused : ℕ → Text → Answer
  listed : List Door → ℤ → Answer
  done : Answer

abbrev url_get_door_devs : Text
url_get_door_devs = codes "/AppAPI/GetDoorDevs"

abbrev url_open_door : Text
url_open_door = codes "/AppAPI/OpenDoor"

module _ (S : Service) (read_doors : List ℕ → Option (Option (List Door))) where
  -- `if err != nil`, with the answer that it gives.
  abbrev or_refuse : {A : Type 0} → Text → (A → Op S Answer) → Ending A → Op S Answer
  or_refuse msg k (returned a) s = k a s
  or_refuse msg k (failed _) s = (returned (refused 500 msg), s)
  or_refuse msg k (panicked f) s = (panicked f, s)
  or_refuse msg k unfinished s = (unfinished, s)

  -- `parseResponse[[]DoorDevsItem]`, and the answer.
  pub answer_doors : CommonResponse → Op S Answer
  answer_doors r s = elim (read_doors r.result) [
    | none ↦ (returned (refused 500 (codes "parse doors failed")), s)
    | some none ↦ (returned (refused 500 (codes "parse doors failed")), s)
    | some (some doors) ↦ (returned (listed doors s.community_id), s)
  ]

  -- `listDoorDevs` once the community is known.
  pub ask_doors : ℕ → Op S Answer
  unfolding answer_doors
  ask_doors fuel s =
      let asked =
        do_request S fuel (codes "POST") (srv_url ++ url_get_door_devs) default_option
          (some ((codes "Community", itoa s.community_id) ∷ [])) s in
      or_refuse (codes "listDoorDevs failed") answer_doors asked.0 asked.1

  -- `listDoorDevs`
  pub list_door_devs : ℕ → Op S Answer
  unfolding ask_doors
  list_door_devs fuel s =
      if is_code 0 s.community_id
      then or_refuse (codes "listDoorDevs failed") (λ _. ask_doors fuel) (refresh_token S s).0
          (refresh_token S s).1
      else ask_doors fuel s

  -- `openDoor`, with the query's device.
  pub open_door : ℕ → Text → Op S Answer
  open_door fuel dev s =
      if is_empty dev
      then (returned (refused 400 (codes "missing dev")), s)
      else (let asked =
            do_request S fuel (codes "POST") (srv_url ++ url_open_door) default_option
              (some ((codes "DoorDevId", dev) ∷ [])) s in
          or_refuse (codes "openDoor failed") (λ _ t. (returned done, t)) asked.0 asked.1)

  or_refuse_ends :
      {A : Type 0}
      → (msg : Text) (k : A → Op S Answer) (e : Ending A) (s : State S) → is_unfinished e ≡ false
      → ((a : A) → is_unfinished (k a s).0 ≡ false)
      → is_unfinished (or_refuse msg k e s).0 ≡ false
  or_refuse_ends msg k (returned a) s ends next = next a
  or_refuse_ends msg k (failed x) s ends next = refl
  or_refuse_ends msg k (panicked f) s ends next = refl
  or_refuse_ends msg k unfinished s ends next = absurd (cc)

  answer_doors_ends :
      (r : CommonResponse) (s : State S) → is_unfinished (answer_doors r s).0 ≡ false
  unfolding answer_doors
  answer_doors_ends r s = ground arith

  ask_doors_ends :
      (left : State S → ℕ)
      → IsPatient S (codes "POST") (srv_url ++ url_get_door_devs) left
      → (fuel : ℕ) (s : State S) → left s < fuel
      → is_unfinished (ask_doors fuel s).0 ≡ false
  unfolding ask_doors
  ask_doors_ends left patient fuel s enough =
      or_refuse_ends (codes "listDoorDevs failed") answer_doors _ _
        (do_request_finishes S (codes "POST") (srv_url ++ url_get_door_devs) left patient fuel
          default_option ((codes "Community", itoa s.community_id) ∷ []) s enough)
        (λ r. answer_doors_ends r _)

  -- Both handlers answer, or panic, where the service lets them: fuel that exceeds a measure is enough,
  -- where no login raises the measure, and each reply to a request of theirs that the token has expired
  -- lowers it together with the login that follows.
  pub handlers_end :
      (left : State S → ℕ)
      → IsPatient S (codes "POST") (srv_url ++ url_get_door_devs) left
      → IsPatient S (codes "POST") (srv_url ++ url_open_door) left
      → (fuel : ℕ) (s : State S) (dev : Text) → left s < fuel
      → (is_unfinished (list_door_devs fuel s).0 ≡ false)
        × (is_unfinished (open_door fuel dev s).0 ≡ false)
  unfolding list_door_devs open_door
  handlers_end left doors_patient open_patient fuel s dev enough = (
    elim (Bool-cases (is_code 0 s.community_id)) [
      | inl unknown ↦
          rw (list_door_devs, unknown)
            (or_refuse_ends (codes "listDoorDevs failed") (λ _. ask_doors fuel)
              (refresh_token S s).0 (refresh_token S s).1 (refresh_token_finishes S s)
              (λ _.
                ask_doors_ends left doors_patient fuel (refresh_token S s).1
                  (omega (arith, doors_patient.keeps s, enough))))
      | inr known ↦ rw (list_door_devs, known) (ask_doors_ends left doors_patient fuel s enough)
    ],
    elim (Bool-cases (is_empty dev)) [
      | inl missing ↦ rw (open_door, missing) refl
      | inr named ↦
          rw (open_door, named)
            (or_refuse_ends (codes "openDoor failed") (λ _ t. (returned done, t)) _ _
              (do_request_finishes S (codes "POST") (srv_url ++ url_open_door) left open_patient
                fuel default_option ((codes "DoorDevId", dev) ∷ []) s enough)
              (λ _. refl))
    ],
  )
