-- ===== src/Server/Stream/Closing.antt =====
-- Behind which generations the terminator of a stream is sent (src/server.cpp).
use onyx_engine.Prelude.{
  ℕ, ◌≤◌, ◌≡◌, ◌≢◌, ◌↔◌, refl, sym, subst, Bool, true, false, Option, none, some, arith,
}
use onyx_engine.Prelude.Bytes.{Bytes}
use onyx_engine.Engine.Types.{
  GenResult, GenError, FinishReason, stop_reason, length_reason, cancel_reason,
}
use onyx_engine.Server.Stream.{Ending, complete, ending}

-- What the ending adds.
abbrev pub is_complete : Ending → ℕ
is_complete complete = 1
is_complete _ = 0

-- A generation that came to its end: no error, not given up, and not cut at its limit where it was to
-- be JSON.
pub record IsWhole (json : Bool) (r : GenResult) : Type 0 where
  pub no_error : r.error ≡ none
  pub not_given_up : r.finish ≢ cancel_reason
  pub not_cut : json ≡ true → r.finish ≢ length_reason

-- The terminator is sent at most once, and exactly behind a whole generation.
abbrev pub ClosesWhole : Bool → GenResult → ℕ → Type 0
ClosesWhole json r n = (n ≤ 1) × (n ≡ 1 ↔ IsWhole json r)

-- A generation that failed, was given up, or was cut where it was to be JSON, is not closed; every
-- other one is.
pub ending-ClosesWhole :
    (json : Bool) (r : GenResult) (message truncated : Bytes)
    → ClosesWhole json r (is_complete (ending json r message truncated))
unfolding ending
ending-ClosesWhole json r message truncated = by_error r.error refl
  where
    count : ℕ
    count = is_complete (ending json r message truncated)

    closed : count ≡ 1 → IsWhole json r → ClosesWhole json r count
    closed e w =
        subst (ClosesWhole json r) (sym e)
          (omega arith, (λ (q : 1 ≡ 1). w, λ (w' : IsWhole json r). refl))

    open_end : count ≡ 0 → ¬ IsWhole json r → ClosesWhole json r count
    open_end e cut = subst (ClosesWhole json r) (sym e) (
      omega arith,
      (λ (q : 0 ≡ 1). absurd (omega (arith, q)), λ (w : IsWhole json r). absurd (cut w)),
    )

    by_json :
        (b : Bool) → json ≡ b → r.error ≡ none → r.finish ≡ length_reason → ClosesWhole json r count
    by_json true j e f = open_end (rw (e, f, j, ending) refl) (λ w. w.not_cut j f)
    by_json false j e f = closed (rw (e, f, j, ending) refl) (record {
      no_error = e;
      not_given_up = λ q. absurd (cc (q, f));
      not_cut = λ q. absurd (cc (q, j));
    })

    by_finish : (f : FinishReason) → r.finish ≡ f → r.error ≡ none → ClosesWhole json r count
    by_finish cancel_reason f e = open_end (rw (e, f, ending) refl) (λ w. w.not_given_up f)
    by_finish length_reason f e = by_json json refl e f
    by_finish stop_reason f e = closed (rw (e, f, ending) refl) (record {
      no_error = e;
      not_given_up = λ q. absurd (cc (q, f));
      not_cut = λ j q. absurd (cc (q, f));
    })

    by_error : (o : Option GenError) → r.error ≡ o → ClosesWhole json r count
    by_error none e = by_finish r.finish refl e
    by_error (some error) e = open_end (rw (e, ending) refl) (λ w. absurd (cc (w.no_error, e)))
