-- ===== src/Dataplane/RetryWriter/Replay.antt =====
-- What a replayed answer says.
use jbalance.Common.{
  ℕ, ◌≡◌, refl, sym, ap, ◌∙◌, true, false, List, [], ◌∷◌, ◌++◌, Text, Bool-cases, inl, inr,
}
use mathlib.Core.List.{append_assoc, append-nil}
use jbalance.Platform.{Platform}
use jbalance.Http.{Values}
use jbalance.Dataplane.RetryWriter.{
  Call, adds, writes_header, writes, RetryResponseWriter, new_retry_response_writer, buffer, write,
  write_header, add_values, add_header, flush_to, header_add,
}

-- The status of the calls: the first that is written, or 200 where the body comes first.
abbrev pub status_of : List Call → ℕ
status_of [] = 200
status_of (adds _ _ ∷ calls) = status_of calls
status_of (writes_header status ∷ calls) = status
status_of (writes b ∷ calls) = 200

abbrev pub body_of : List Call → Text
body_of [] = []
body_of (adds _ _ ∷ calls) = body_of calls
body_of (writes_header _ ∷ calls) = body_of calls
body_of (writes b ∷ calls) = b ++ body_of calls

-- Adding header values changes neither.
abbrev Same : List Call → List Call → Type 0
Same calls rest =
    (status_of (calls ++ rest) ≡ status_of rest) × (body_of (calls ++ rest) ≡ body_of rest)

add_values-Same : (name : Text) (vs : List Text) (rest : List Call) → Same (add_values name vs) rest
unfolding add_values
add_values-Same name [] rest = (refl, refl)
add_values-Same name (v ∷ vs) rest = add_values-Same name vs rest

add_header-Same : (h : Values) (rest : List Call) → Same (add_header h) rest
unfolding add_header
add_header-Same [] rest = (refl, refl)
add_header-Same ((name, vs) ∷ h) rest =
    let whole = append_assoc (add_values name vs) (add_header h) rest in
    let first = add_values-Same name vs (add_header h ++ rest) in
    let next = add_header-Same h rest in
    (ap status_of whole ∙ first.0 ∙ next.0, ap body_of whole ∙ first.1 ∙ next.1)

module _ ⦃p : Platform⦄ where
  write_header-body : (n : ℕ) (w : RetryResponseWriter) → (write_header n w).body ≡ w.body
  unfolding write_header
  write_header-body n w = elim (Bool-cases w.wrote_header) [ inl q ↦ rw q refl | inr q ↦ rw q refl ]

  buffer-body :
      (rw' : RetryResponseWriter) (calls : List Call)
      → (buffer rw' calls).body ≡ rw'.body ++ body_of calls
  unfolding buffer write
  buffer-body rw' [] = sym (append-nil rw'.body)
  buffer-body rw' (adds name v ∷ calls) =
      buffer-body (record rw' { header = header_add name v rw'.header }) calls
  buffer-body rw' (writes_header status ∷ calls) =
      buffer-body (write_header status rw') calls
      ∙ ap (λ b. b ++ body_of calls) (write_header-body status rw')
  buffer-body rw' (writes b ∷ calls) =
      buffer-body (write b rw') calls ∙ append_assoc rw'.body b (body_of calls)

  -- Once a status is written it stays.
  buffer-wrote :
      (rw' : RetryResponseWriter) (calls : List Call)
      → rw'.wrote_header ≡ true
      → (buffer rw' calls).status_code ≡ rw'.status_code
  unfolding buffer write write_header
  buffer-wrote rw' [] h = refl
  buffer-wrote rw' (adds name v ∷ calls) h =
      buffer-wrote (record rw' { header = header_add name v rw'.header }) calls h
  buffer-wrote rw' (writes_header status ∷ calls) h = simp h (buffer-wrote rw' calls h)
  buffer-wrote rw' (writes b ∷ calls) h = buffer-wrote (write b rw') calls refl

  buffer-status :
      (h : Values) (calls : List Call)
      → (buffer
          (record { header = h; body = []; status_code = 200; wrote_header = false })
          calls).status_code
        ≡ status_of calls
  unfolding buffer write write_header
  buffer-status h [] = refl
  buffer-status h (adds name v ∷ calls) = buffer-status (header_add name v h) calls
  buffer-status h (writes_header status ∷ calls) =
      buffer-wrote (record { header = h; body = []; status_code = status; wrote_header = true })
        calls refl
  buffer-status h (writes b ∷ calls) =
      buffer-wrote (record { header = h; body = [] ++ b; status_code = 200; wrote_header = true })
        calls refl

  -- The replay of a buffered answer has the first status that was written, or 200 where the body
  -- came first, and the whole body, in order.
  pub flush_to-buffer :
      (calls : List Call)
      → (status_of (flush_to (buffer new_retry_response_writer calls)) ≡ status_of calls)
        × (body_of (flush_to (buffer new_retry_response_writer calls)) ≡ body_of calls)
  unfolding flush_to new_retry_response_writer
  flush_to-buffer calls =
      let held = buffer new_retry_response_writer calls in
      let end = writes_header held.status_code ∷ writes held.body ∷ [] in
      let plain = add_header-Same held.header end in
      (
        plain.0 ∙ buffer-status [] calls,
        plain.1 ∙ append-nil held.body ∙ buffer-body new_retry_response_writer calls,
      )
