-- ===== src/OneAction/Zdy.antt =====
-- api-one-action/zdy-doors/zdy.go: requests to the door service, with its login. The service and
-- JSON are parameters. The recursion of `doRequest` is on fuel.
pub mod Retries
pub mod Endless
pub mod Actions
mod Tests
use focot_services.Prelude.{
  ◌==◌, if◌then◌else◌, insert, Text, codes, text_dec, ℕ, zero, suc, Bool, true, false, not, ◌&&◌,
  Option, none, some, List, [], ◌∷◌, ◌++◌,
}
use focot_services.Prelude.Int.{ℤ, pos, negsuc}
use focot_services.Prelude.Results.{◌>>◌, Fault, nil_dereference}

-- `CommonResponse`
pub record CommonResponse : Type 0 where
  pub code : ℤ
  pub msg : Text
  pub result : List ℕ

-- `LoginResult`, as far as it is read.
pub record LoginResult : Type 0 where
  pub token : Text
  pub community_id : ℤ
  pub user_id : ℤ

-- `requestOption`
pub record RequestOption : Type 0 where
  pub check_err_code : Bool
  pub auth : Bool
  pub auto_refresh : Bool

abbrev pub default_option : RequestOption
default_option = record { check_err_code = true; auth = true; auto_refresh = true }

pub data Reply : Type 0 where
  not_sent not_read null_reply : Reply
  replied : CommonResponse → Reply

pub data ZdyError : Type 0 where
  send_failed read_failed result_unreadable result_null : ZdyError
  code_failed : ℤ → Text → ZdyError
  login_failed : ZdyError → ZdyError

-- How a call ends; `unfinished` is a lack of fuel.
pub data Ending (A : Type 0) : Type 0 where
  returned : A → Ending A
  failed : ZdyError → Ending A
  panicked : Fault → Ending A
  unfinished : Ending A

-- The service with the state that it keeps, and what JSON reads of the result of a login.
pub record Service : Type 1 where
  pub World : Type 0
  pub send : Text → Text → Option (List (Text × Text)) → World → Reply × World
  pub read_login : List ℕ → Option (Option LoginResult)
  pub phone : Text
  pub password : Text

abbrev pub srv_url : Text
srv_url = codes "http://39.97.176.54:8089"

abbrev pub url_login : Text
url_login = codes "/AppAPI/login"

abbrev pub is_empty : Text → Bool
is_empty [] = true
is_empty (_ ∷ _) = false

abbrev pub is_code : ℕ → ℤ → Bool
is_code n (pos m) = m == n
is_code n (negsuc m) = false

-- `opt.Data["Accesstoken"] = srv.token`, if there is data.
abbrev pub inject : Text → Option (List (Text × Text)) → Option (List (Text × Text))
inject token none = none
inject token (some form) = some (insert text_dec (codes "Accesstoken") token form)

module _ (S : Service) where
  -- `ZdyService`, and the world.
  pub record State : Type 0 where
    pub token : Text
    pub community_id : ℤ
    pub world : S.World

  abbrev pub Op : Type 0 → Type 0
  Op A = State → Ending A × State

  abbrev pub on_end : {A B : Type 0} → (A → Op B) → Ending A → Op B
  on_end k (returned a) s = k a s
  on_end k (failed x) s = (failed x, s)
  on_end k (panicked f) s = (panicked f, s)
  on_end k unfinished s = (unfinished, s)

  infixl 5 ◌>>=◌
  abbrev pub ◌>>=◌ : {A B : Type 0} → Op A → (A → Op B) → Op B
  (m >>= k) s = on_end k (m s).0 (m s).1

  -- `if reqOpt.CheckErrCode { if r.Code != 0 { … } }`
  abbrev pub checked : Bool → CommonResponse → Ending CommonResponse
  checked check r =
      if check && not (is_code 0 r.code) then failed (code_failed r.code r.msg) else returned r

  abbrev pub Request : Type 0
  Request = RequestOption → Option (List (Text × Text)) → Op CommonResponse

  -- `doRequest` from the reply on, with the refresh of the token and the retry.
  unfoldable pub after_reply :
      Op Text → Request → RequestOption → Option (List (Text × Text)) → Reply → Op CommonResponse
  after_reply refresh again o form not_sent s = (failed send_failed, s)
  after_reply refresh again o form not_read s = (failed read_failed, s)
  after_reply refresh again o form null_reply s = (panicked nil_dereference, s)
  after_reply refresh again o form (replied r) s =
      if is_code 2 r.code && o.auto_refresh
      then (do
        _ ← refresh
        again
            (record {
              check_err_code = o.check_err_code;
              auth = o.auto_refresh;
              auto_refresh = true;
            })
            form)
          s
      else (checked o.check_err_code r, s)

  -- From the injection of the token on.
  unfoldable pub inject_and_send : Op Text → Request → Text → Text → Request
  unfolding after_reply
  inject_and_send refresh again method url o form s =
      let injected = inject s.token form in
      let (reply, world) = S.send method url injected s.world in
      after_reply refresh again o injected reply (record s { world = world })

  -- The body of `doRequest`.
  unfoldable pub request_body : Op Text → Request → Text → Text → Request
  unfolding inject_and_send
  request_body refresh again method url o form s =
      if o.auth && is_empty s.token
      then (do
        _ ← refresh
        inject_and_send refresh again method url (record o { auto_refresh = false }) form)
          s
      else inject_and_send refresh again method url o form s

  -- `parseResponse[LoginResult]`, and what `refreshToken` stores.
  unfoldable pub on_login : CommonResponse → Op Text
  on_login r s = elim (S.read_login r.result) [
    | none ↦ (failed (login_failed result_unreadable), s)
    | some none ↦ (failed (login_failed result_null), s)
    | some (some res) ↦
        (returned res.token, record s { token = res.token; community_id = res.community_id })
  ]

  abbrev pub login_form : Option (List (Text × Text))
  login_form = some ((codes "phone", S.phone) ∷ (codes "password", S.password) ∷ [])

  abbrev pub wrapped : Ending CommonResponse × State → Ending CommonResponse × State
  wrapped (failed x, s) = (failed (login_failed x), s)
  wrapped (e, s) = (e, s)

  -- `refreshToken`: with these options, `doRequest` neither refreshes nor retries.
  unfoldable pub refresh_token : Op Text
  unfolding request_body on_login
  refresh_token = do
    r ← λ s. wrapped (
        request_body (λ t. (unfinished, t)) (λ o form t. (unfinished, t)) (codes "POST")
          (srv_url ++ url_login)
          (record { check_err_code = true; auth = false; auto_refresh = false }) login_form s)
    on_login r

  -- `doRequest`
  unfoldable pub do_request : ℕ → Text → Text → Request
  unfolding request_body refresh_token
  do_request zero method url o form s = (unfinished, s)
  do_request (suc fuel) method url o form s =
      request_body refresh_token (do_request fuel method url) method url o form s
