-- ===== src/Daemon/Run/Refusals.antt =====
-- internal/daemon/server.go, handleRun: which requests are run.
use game_forge.Prelude.{
  ℕ, subst, Bool, true, false, none, ◌≡◌, ◌≢◌, ◌↔◌, ◌⊎◌, refl, sym, Option-cases, Result-cases,
  Bool-cases, inl, inr, arith, ==_iff, ok,
}
use game_forge.Prelude.Int.{ℤ, pos}
use game_forge.Op.{unsupported_version, Error, Request, Operation}
use game_forge.Daemon.Dispatch.{Checks, Server, fault, prepare, protocol_version}
use game_forge.Daemon.Run.Answers.{IsRun, run_prepared-IsRun}
use game_forge.Daemon.Run.{
  Answer, refused, Posted, unreadable, malformed, posted, handle_run, run_decoded, is_version,
  http_ok, status_for_err,
}

pub is_version_iff : (v : ℤ) → (is_version v ≡ true) ↔ (v ≡ protocol_version)
unfolding is_version
is_version_iff (pos n) = ground (arith, ==_iff n 1)
is_version_iff (ℤ.negsuc n) = (λ h. ground arith, λ h. cc)

status_for_err_ne_ok : (e : Error) → status_for_err e ≢ http_ok
unfolding status_for_err
status_for_err_ne_ok e h = ground arith

module _ {V : Type 0} where
  -- A POST of a value that the schema accepts, with the protocol's version, that `prepare` accepts.
  pub record IsRunnable (c : Checks V) (s : Server V) (post : Bool) (body : Posted V) : Type 0 where
    pub value : V
    pub req : Request V
    pub by_post : post ≡ true
    pub decoded : body ≡ posted value req
    pub accepted : c.request value ≡ none
    pub version : req.v ≡ protocol_version
    pub prepared : (p : Operation V × Request V) × (prepare s req ≡ ok p)

  -- An answer from before the dispatch: an error with a status other than 200, and the server unchanged.
  pub IsRefused : Server V → Server V × Answer V → Type 0
  IsRefused s r = (status : ℕ) × (e : Error) × (status ≢ http_ok) × (r ≡ (s, refused status e))

  -- What a runnable request is when its value and request are known.
  runnable_parts :
      (c : Checks V) (s : Server V) (v : V) (req : Request V)
      → IsRunnable c s true (posted v req)
      → (c.request v ≡ none)
        × (is_version req.v ≡ true)
        × ((p : Operation V × Request V) × (prepare s req ≡ ok p))
  runnable_parts c s v req r =
      let q : r.req ≡ req = cc in
      let w : r.value ≡ v = cc in
      (
        subst (λ x. c.request x ≡ none) w r.accepted,
        (is_version_iff req.v).1 (subst (λ x. x.v ≡ protocol_version) q r.version),
        subst (λ x. (p : Operation V × Request V) × (prepare s x ≡ ok p)) q r.prepared,
      )

  -- A request to /v1/run either is a POST of a value that the request schema accepts, with the version of
  -- the protocol, for which `prepare` succeeds: then that operation runs on the request that
  -- `prepare` made, with an id and a new run id, and the answer is on what the run gave: without a stream its
  -- reply, with status 200 exactly if it says ok, which is replaced by a failure if the response schema does
  -- not accept it; with a stream its start, its progress and its end, in order, where an event that the schema
  -- does not accept is replaced by the end of a failed run. Or it is not, and then it gets an error with a status other than 200 and the
  -- server is unchanged.
  pub handle_run_split :
      (c : Checks V) (s : Server V) (post stream : Bool) (body : Posted V)
      → ((i : IsRunnable c s post body) × IsRun c s stream i.prepared.0
            (handle_run c s post stream body))
        ⊎ ((¬ IsRunnable c s post body) × IsRefused s (handle_run c s post stream body))
  unfolding handle_run run_decoded IsRefused
  handle_run_split c s false stream body =
      inr (λ r. ground (arith, r.by_post), (405, _, (λ e. ground arith), refl))
  handle_run_split c s true stream unreadable =
      inr (λ r. ground (arith, r.decoded), (400, _, (λ e. ground arith), refl))
  handle_run_split c s true stream malformed =
      inr (λ r. ground (arith, r.decoded), (400, _, (λ e. ground arith), refl))
  handle_run_split c s true stream (posted v req) = elim (Option-cases (c.request v)) [
    | inr (x, p) ↦ inr (
      λ r. ground (arith, runnable_parts c s v req r),
      (400, x, λ e. ground arith, rw (p, handle_run) refl),
    )
    | inl p ↦ elim (Bool-cases (is_version req.v)) [
      | inr q ↦ inr (
        λ r. ground (arith, runnable_parts c s v req r),
        (
          400,
          fault unsupported_version "unsupported version",
          λ e. ground arith,
          rw (p, q, handle_run) refl,
        ),
      )
      | inl q ↦ elim (Result-cases (prepare s req)) [
        | inl (x, t) ↦ inr (
          λ r. ground (arith, runnable_parts c s v req r),
          (status_for_err x, x, status_for_err_ne_ok x, rw (p, q, t, handle_run) refl),
        )
        | inr ((o, req'), t) ↦ inl (
          record {
            value = v;
            req = req;
            by_post = refl;
            decoded = refl;
            accepted = p;
            version = (is_version_iff req.v).0 q;
            prepared = ((o, req'), t);
          },
          subst (IsRun c s stream (o, req')) (sym (rw (p, q, t, handle_run) refl))
              (run_prepared-IsRun c s stream o req'),
        )
      ]
    ]
  ]
