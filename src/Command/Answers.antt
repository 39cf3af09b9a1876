-- ===== src/Command/Answers.antt =====
-- internal/command/handler.go: what the command API answers, and what it has then published.
use Prim.Native.Char.{Char}
use statusengine_worker.Prelude.{
  ℕ, ◌+◌, ◌≤◌, replicate, String, true, false, Option, some, List, [], ◌∷◌, ◌++◌, Bytes, str_eq,
  length, ◌==◌, ◌≡◌, refl, sym, subst, All, Bool-cases, Option-cases, ◌⊎◌, inl, inr, Chars,
}
use statusengine_worker.Command.{
  Envelope, Result, ok, rejected, RejectReason, reason_auth, reason_malformed,
  reason_unknown_command, reason_denied, reason_too_large, validate,
}
use statusengine_worker.Command.Accepted.{IsJson, is_digit}
use statusengine_worker.Command.Validated.{IsSafe, validate-IsSafe}
use statusengine_worker.Command.Publisher.{Backend, Attempt, Submission}
use statusengine_worker.Command.Submitted.{failure, success, publish-Submits}
use statusengine_worker.Command.Endpoint.{
  Body, parsed, not_json, body_too_large, Request, Response, World, authorized, status_of,
  publish_checked, check_and_publish, serve_http,
}

module _ (upper : Char → Char) (stamp : Chars) (digits : All (λ c. is_digit c ≡ true) stamp)
    (unmarshal : Bytes → Option Chars) (marshal : Chars → Option Bytes)
    (json : IsJson unmarshal marshal) (encode : Envelope → Option Bytes) (backend : Backend)
    (first second : Attempt) (api_keys : List Chars) where
  -- The request is one to publish, as `payload`.
  pub record IsValid (r : Request) (payload : Bytes) (accepted : ℕ) : Type 0 where
    pub env : Envelope
    pub checked : Envelope
    pub names : List String
    pub is_post : str_eq r.method "POST" ≡ true
    pub has_key : authorized r api_keys ≡ true
    pub body : r.body ≡ parsed env
    pub valid : validate upper stamp unmarshal marshal 0 env ≡ ok (checked, names)
    pub safe : IsSafe stamp digits upper unmarshal marshal json checked
    pub encoded : encode checked ≡ some payload
    pub counted : accepted ≡ length names

  abbrev pub submissions : Response × World → List Submission
  submissions answer = answer.1.publisher.submissions

  -- The last submission succeeded, after at most one that failed.
  pub record IsPublished (r : Request) (w : World) (answer : Response × World) : Type 0 where
    pub payload : Bytes
    pub request : IsValid r payload answer.0.accepted
    pub failed : ℕ
    pub few : failed + 1 ≤ 2
    pub sent :
        submissions answer
        ≡ w.publisher.submissions
          ++ (replicate failed (failure backend payload) ++ success backend payload ∷ [])

  -- At most two submissions, all of which failed.
  pub record IsUnsure (r : Request) (w : World) (answer : Response × World) : Type 0 where
    pub payload : Bytes
    pub count : ℕ
    pub request : IsValid r payload count
    pub failed : ℕ
    pub few : failed ≤ 2
    pub sent :
        submissions answer ≡ w.publisher.submissions ++ replicate failed (failure backend payload)

  abbrev Answered : Request → World → Response × World → Type 0
  Answered r w answer =
      ((answer.0.status ≡ 202) × IsPublished r w answer)
      ⊎ (((answer.0.status ≡ 503) × IsUnsure r w answer)
          ⊎ (((answer.0.status == 202) ≡ false)
              × ((answer.0.status == 503) ≡ false)
              × (submissions answer ≡ w.publisher.submissions)))

  status_of-refuses :
      (reason : RejectReason)
      → ((status_of reason == 202) ≡ false) × ((status_of reason == 503) ≡ false)
  unfolding status_of
  status_of-refuses reason_auth = (refl, refl)
  status_of-refuses reason_malformed = (refl, refl)
  status_of-refuses reason_unknown_command = (refl, refl)
  status_of-refuses reason_denied = (refl, refl)
  status_of-refuses reason_too_large = (refl, refl)

  published_answer :
      (r : Request) (w : World) (env checked : Envelope) (names : List String)
      → str_eq r.method "POST" ≡ true
      → authorized r api_keys ≡ true
      → r.body ≡ parsed env
      → validate upper stamp unmarshal marshal 0 env ≡ ok (checked, names)
      → Answered r w (
          publish_checked upper stamp unmarshal marshal encode backend first second api_keys checked
            names w)
  unfolding publish_checked
  published_answer r w env checked names post key body valid =
      elim (Option-cases (encode checked)) [
        | inl unencoded ↦ rw (unencoded, publish_checked) (inr (inr (refl, refl, refl)))
        | inr (payload, made) ↦
            let request : IsValid r payload (length names) = record {
              env = env;
              checked = checked;
              names = names;
              is_post = post;
              has_key = key;
              body = body;
              valid = valid;
              safe =
                  (validate-IsSafe stamp digits upper unmarshal marshal json env checked names
                    valid).0;
              encoded = made;
              counted = refl;
            } in
            let (failed, how) = publish-Submits backend payload (first ∷ second ∷ []) w.publisher in
            elim how [
              | inl (sent, few, is) ↦
                  rw (made, sent, publish_checked)
                    (inl (
                      refl,
                      record {
                        payload = payload;
                        request = request;
                        failed = failed;
                        few = few;
                        sent = is;
                      },
                    ))
              | inr (lost, few, is) ↦
                  rw (made, lost, publish_checked)
                    (inr (
                      inl (
                        refl,
                        record {
                          payload = payload;
                          count = length names;
                          request = request;
                          failed = failed;
                          few = few;
                          sent = is;
                        },
                      )))
            ]
      ]

  Result-cases :
      {A : Type 0} (x : Result A)
      → ((a : A) × (x ≡ ok a)) ⊎ ((reason : RejectReason) × (x ≡ rejected reason))
  Result-cases (ok a) = inl (a, refl)
  Result-cases (rejected reason) = inr (reason, refl)

  checked_answer :
      (r : Request) (w : World) (env : Envelope)
      → str_eq r.method "POST" ≡ true
      → authorized r api_keys ≡ true
      → r.body ≡ parsed env
      → Answered r w (
          check_and_publish upper stamp unmarshal marshal encode backend first second api_keys env
            w)
  unfolding check_and_publish
  checked_answer r w env post key body =
      elim (Result-cases (validate upper stamp unmarshal marshal 0 env)) [
        | inr (reason, why) ↦
            let (not_published, not_failed) = status_of-refuses reason in
            rw (why, check_and_publish) (inr (inr (not_published, not_failed, refl)))
        | inl ((checked, names), valid) ↦
            rw (valid, check_and_publish)
              (published_answer r w env checked names post key body valid)
      ]

  Body-cases :
      (b : Body) → ((env : Envelope) × (b ≡ parsed env)) ⊎ ((b ≡ not_json) ⊎ (b ≡ body_too_large))
  Body-cases (parsed env) = inl (env, refl)
  Body-cases not_json = inr (inl refl)
  Body-cases body_too_large = inr (inr refl)

  -- A request is answered 202 only if it was a POST with a valid key whose body is an envelope that
  -- `Validate` lets pass; then its checked form, which is safe, has been submitted successfully once,
  -- as the last of at most two submissions, and the commands in it are the number accepted. It is
  -- answered 503 only if it was such a request; then at most two submissions of that form were made,
  -- and all have returned an error. With any other answer nothing has been submitted.
  pub serve_http-IsPublished :
      (r : Request) (w : World)
      → Answered r w
          (serve_http upper stamp unmarshal marshal encode backend first second api_keys r w)
  unfolding serve_http
  serve_http-IsPublished r w = elim (Bool-cases (str_eq r.method "POST")) [
    | inr other_method ↦ rw (other_method, serve_http) (inr (inr (refl, refl, refl)))
    | inl post ↦ elim (Bool-cases (authorized r api_keys)) [
      | inr no_key ↦ rw (post, no_key, serve_http) (inr (inr (refl, refl, refl)))
      | inl key ↦ elim (Body-cases r.body) [
        | inl (env, body) ↦
            let same : serve_http upper stamp unmarshal marshal encode backend first second api_keys
                  r w
                ≡ check_and_publish upper stamp unmarshal marshal encode backend first second
                    api_keys env w =
              rw (post, key, body, serve_http) refl in
            subst (Answered r w) (sym same) (checked_answer r w env post key body)
        | inr (inl body) ↦ rw (post, key, body, serve_http) (inr (inr (refl, refl, refl)))
        | inr (inr body) ↦ rw (post, key, body, serve_http) (inr (inr (refl, refl, refl)))
      ]
    ]
  ]
