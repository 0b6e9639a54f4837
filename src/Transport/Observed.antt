-- ===== src/Transport/Observed.antt =====
-- `UnaryMetricsInterceptor` and what telemetry/metrics.go counts for a request.
use high_load_ledger.Prelude.{
  ℕ, ◌≡◌, refl, ap, Bool, false, ◌||◌, Option, none, some, List, [], ◌∷◌, ◌++◌, ◌==◌, if◌then◌else◌,
  arith,
}
use high_load_ledger.Wire.{Bytes, Code, Reply, replied, failed, nothing, panicked}

-- "/"
abbrev slash : ℕ
slash = 47

-- "unknown"
abbrev unknown : Bytes
unknown = 117 ∷ 110 ∷ 107 ∷ 110 ∷ 111 ∷ 119 ∷ 110 ∷ []

-- What stands after the last slash, if there is one.
unfoldable pub after_last : Bytes → Option Bytes
after_last [] = none
after_last (c ∷ s) = elim (after_last s) as (λ _. Option Bytes) [
  | some name ↦ some name
  | none ↦ if c == slash then some s else none
]

abbrev or_unknown : Bytes → Bytes
or_unknown [] = unknown
or_unknown (c ∷ s) = c ∷ s

abbrev name_or : Bytes → Option Bytes → Bytes
name_or full none = or_unknown full
name_or full (some []) = or_unknown full
name_or full (some (c ∷ s)) = c ∷ s

-- `grpcRPC`: the name after the last slash; the whole method if there is none, or nothing after it
unfoldable pub grpc_rpc : Bytes → Bytes
unfolding after_last
grpc_rpc full = name_or full (after_last full)

-- `status.FromError(err)`: OK for no error
pub data StatusCode : Type 0 where
  ok_code : StatusCode
  error_code : Code → StatusCode

-- `requests_total` and `request_duration_seconds` by their labels, newest first; the times are left
-- out.
pub record Observed : Type 0 where
  pub requests : List (Bytes × StatusCode)
  pub durations : List (Bytes × StatusCode)

unfoldable pub observe : Bytes → StatusCode → Observed → Observed
unfolding grpc_rpc
observe full code o = record {
  requests = (grpc_rpc full, code) ∷ o.requests;
  durations = (grpc_rpc full, code) ∷ o.durations;
}

-- The interceptor, with what the handler has returned; a panic of the handler passes through.
unfoldable pub unary_metrics : {A : Type 0} → Bytes → Reply A → Observed → Reply A × Observed
unfolding observe
unary_metrics full (replied a) o = (replied a, observe full ok_code o)
unary_metrics full nothing o = (nothing, observe full ok_code o)
unary_metrics full (failed code) o = (failed code, observe full (error_code code) o)
unary_metrics full panicked o = (panicked, o)

unfoldable pub has_slash : Bytes → Bool
has_slash [] = false
has_slash (c ∷ s) = c == slash || has_slash s

nothing_after : (name : Bytes) → has_slash name ≡ false → after_last name ≡ none
unfolding has_slash after_last
nothing_after [] h = refl
nothing_after (c ∷ s) h = rw (nothing_after s (ground (arith, h))) (ground (arith, h))

after_slash :
    (prefix name : Bytes)
    → has_slash name ≡ false
    → after_last (prefix ++ (slash ∷ name)) ≡ some name
unfolding after_last
after_slash [] name h = rw (nothing_after name h) refl
after_slash (c ∷ prefix) name h = rw (after_slash prefix name h) refl

-- The label of a method of the generated services, a path that ends in a slash and a name that is
-- not empty and has no slash, is the name.
pub grpc_rpc-name :
    (prefix : Bytes) (c : ℕ) (s : Bytes)
    → has_slash (c ∷ s) ≡ false
    → grpc_rpc (prefix ++ (slash ∷ c ∷ s)) ≡ c ∷ s
unfolding grpc_rpc
grpc_rpc-name prefix c s h = ap (name_or _) (after_slash prefix (c ∷ s) h)
