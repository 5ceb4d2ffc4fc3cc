-- ===== src/Sync.antt =====
-- Writes to several backends at once: the parts that the strategies share
-- (src/s3mer/backends/sync_executor.py).
pub mod Gather
pub mod Writes
pub mod Distributed
use Prim.Native.String.{◌++◌ as ◌^^◌}
use s3mer.Base.{
  ℕ, String, Bool, true, false, leb, ◌≡◌, refl, Option, none, some, List, [], ◌∷◌, if◌then◌else◌,
}
use s3mer.Base.Texts.{str_eq}
use s3mer.Value.{Params}
use s3mer.Errors.{Exn, runtime_error, key_error, other}
use s3mer.Exec.{Result, ok, raised}
use s3mer.Pool
use s3mer.Pool.{Pool, Client, exn}
use s3mer.Streaming.Shared.{StreamConfig}

-- `SyncExecutionResult`
pub record SyncExecutionResult : Type 0 where
  pub successes : List (Client × Params)
  pub failures : List (Client × Exn)

-- the arguments of the strategies' constructor that come from the settings
pub record SyncConfig : Type 0 where
  pub stream_config : StreamConfig
  pub sync_backend_names : Option (List String)
  pub sync_quorum : ℕ
  pub response_backend : Option String

-- a list of values in order, of which the first that raises ends it
unfoldable pub prepend : {A : Type 0} → Result A → Result (List A) → Result (List A)
prepend (raised e) rest = raised e
prepend (ok a) (raised e) = raised e
prepend (ok a) (ok rest) = ok (a ∷ rest)

pub prepend-ok :
    {A : Type 0} (r : Result A) (rest : Result (List A)) (xs : List A)
    → prepend r rest ≡ ok xs
    → (a : A) × ((tail : List A) × ((r ≡ ok a) × (rest ≡ ok tail) × (xs ≡ a ∷ tail)))
unfolding prepend
prepend-ok (raised e) rest xs h = absurd cc
prepend-ok (ok a) (raised e) xs h = absurd cc
prepend-ok (ok a) (ok tail) xs h = (a, (tail, (refl, refl, cc)))

-- `pool.get(name)`
unfoldable pub get_one : String → Pool → Result Client
get_one name pool = elim (Pool.get name pool) [
  | none ↦ raised (exn key_error ("Unknown backend: " ^^ name))
  | some client ↦ ok client
]

-- `[pool.get(name) for name in sync_backend_names]`
unfoldable pub get_each : List String → Pool → Result (List Client)
unfolding prepend get_one
get_each [] pool = ok []
get_each (name ∷ names) pool = prepend (get_one name pool) (get_each names pool)

-- `resolve_sync_backends`
unfoldable pub resolve_sync_backends : Pool → Option (List String) → Result (List Client)
unfolding get_each
resolve_sync_backends pool none = ok (Pool.all_clients pool)
resolve_sync_backends pool (some []) = ok (Pool.all_clients pool)
resolve_sync_backends pool (some (name ∷ names)) = get_each (name ∷ names) pool

-- the first pair whose backend passes the test
unfoldable pub find_backend : {A : Type 0} → (Client → Bool) → List (Client × A) → Option A
find_backend p [] = none
find_backend p ((backend, a) ∷ rest) = if p backend then some a else find_backend p rest

abbrev pub has_name : Option String → Client → Bool
has_name none c = false
has_name (some name) c = str_eq c.name name

-- the response of the named backend, of the primary, or else of the first
pub choose : Option Params → Option Params → Params → Params
choose (some r) o first = r
choose none (some r) first = r
choose none none first = first

-- `select_client_response`
unfoldable pub select_client_response : List (Client × Params) → Option String → Result Params
unfolding find_backend choose
select_client_response [] response_backend =
    raised (exn runtime_error "No successful backends to select response from")
select_client_response ((c, response) ∷ rest) response_backend =
    let successes = (c, response) ∷ rest in
    ok (
      choose (find_backend (has_name response_backend) successes)
        (find_backend (λ b. b.is_primary) successes) response)

unfoldable pub quorum_met : ℕ → ℕ → Bool
quorum_met success_count sync_quorum = leb sync_quorum success_count

-- what `raise_best_failure` raises; `failures[0]` of an empty list is an IndexError
unfoldable pub best_failure : List (Client × Exn) → Exn
unfolding find_backend
best_failure failures = elim (find_backend (λ b. b.is_primary) failures) [
  | some e ↦ e
  | none ↦ elim failures [ [] ↦ exn other "list index out of range" | (c, e) ∷ rest ↦ e ]
]
