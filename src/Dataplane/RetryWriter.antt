-- ===== src/Dataplane/RetryWriter.antt =====
-- internal/dataplane/retrywriter.go: the buffer of an attempt that may be retried. A response
-- writer is known by the calls that are made of it.
pub mod Replay
use jbalance.Common.{
  ℕ, Bool, true, false, Option, none, some, List, [], ◌∷◌, ◌++◌, Text, text_instance, Map, lookup,
  insert, if◌then◌else◌,
}
use jbalance.Platform.{Platform}
use jbalance.Http.{Values}

-- w.Header().Add(name, value), w.WriteHeader(status) and w.Write(b).
pub data Call : Type 0 where
  adds : Text → Text → Call
  writes_header : ℕ → Call
  writes : Text → Call

pub record RetryResponseWriter : Type 0 where
  pub header : Values
  pub body : Text
  pub status_code : ℕ
  pub wrote_header : Bool

unfoldable pub new_retry_response_writer : RetryResponseWriter
new_retry_response_writer = record {
  header = [];
  body = [];
  status_code = 200;
  wrote_header = false;
}

unfoldable pub write_header : ℕ → RetryResponseWriter → RetryResponseWriter
write_header status rw' =
    if rw'.wrote_header then rw' else record rw' { status_code = status; wrote_header = true }

unfoldable pub write : Text → RetryResponseWriter → RetryResponseWriter
write b rw' = record rw' { wrote_header = true; body = rw'.body ++ b }

-- The loops of flushTo over the header.
unfoldable pub add_values : Text → List Text → List Call
add_values name [] = []
add_values name (v ∷ vs) = adds name v ∷ add_values name vs

unfoldable pub add_header : Values → List Call
unfolding add_values
add_header [] = []
add_header ((name, vs) ∷ h) = add_values name vs ++ add_header h

unfoldable pub flush_to : RetryResponseWriter → List Call
unfolding add_header
flush_to rw' = add_header rw'.header ++ writes_header rw'.status_code ∷ writes rw'.body ∷ []

module _ ⦃p : Platform⦄ where
  -- h.Add(name, value)
  unfoldable pub header_add : Text → Text → Values → Values
  header_add name value h = elim (lookup (p.canonical_key name) h) [
    | none ↦ insert (p.canonical_key name) (value ∷ []) h
    | some vs ↦ insert (p.canonical_key name) (vs ++ value ∷ []) h
  ]

  unfoldable pub buffer : RetryResponseWriter → List Call → RetryResponseWriter
  unfolding write_header write header_add
  buffer rw' [] = rw'
  buffer rw' (adds name value ∷ calls) =
      buffer (record rw' { header = header_add name value rw'.header }) calls
  buffer rw' (writes_header status ∷ calls) = buffer (write_header status rw') calls
  buffer rw' (writes b ∷ calls) = buffer (write b rw') calls
