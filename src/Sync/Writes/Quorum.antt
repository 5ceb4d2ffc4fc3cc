-- ===== src/Sync/Writes/Quorum.antt =====
-- When a write to several backends is accepted, with which response, and with which error it is refused.
use s3mer.Base.{
  ℕ, ◌+◌, ◌≤◌, ◌<◌, ◌≡◌, refl, Bool, true, false, Option, none, some, if◌then◌else◌, List, [], ◌∷◌,
  All, length, leb, leb→le, leb→lt, arith, String,
}
use mathlib.Core.List.{Memᴰ}
use s3mer.Value.{Params}
use s3mer.Errors.{Exn}
use s3mer.Exec.{Result, ok, raised}
use s3mer.Pool.{Client}
use s3mer.Sync.{
  SyncExecutionResult, SyncConfig, find_backend, has_name, choose, select_client_response,
  quorum_met, best_failure,
}
use s3mer.Sync.Writes.{judge}

module _ {A : Type 0} where
  found :
      (p : Client → Bool) (c : Client) (x a : A) (xs : List (Client × A)) (b : Bool)
      → (find_backend p xs ≡ some a → (d : Client) × (Memᴰ (d, a) xs × (p d ≡ true)))
      → p c ≡ b
      → (if b then some x else find_backend p xs) ≡ some a
      → (d : Client) × (Memᴰ (d, a) ((c, x) ∷ xs) × (p d ≡ true))
  found p c x a xs true rest h e = (c, (Memᴰ.head cc, h))
  found p c x a xs false rest h e = let (d, (m, t)) = rest e in (d, (Memᴰ.tail m, t))

  find_some :
      (p : Client → Bool) (xs : List (Client × A)) (a : A)
      → find_backend p xs ≡ some a
      → (c : Client) × (Memᴰ (c, a) xs × (p c ≡ true))
  unfolding find_backend
  find_some p [] a e = absurd cc
  find_some p ((c, x) ∷ xs) a e = found p c x a xs (p c) (find_some p xs a) refl e

  missed :
      (p : Client → Bool) (c : Client) (x : A) (xs : List (Client × A)) (b : Bool)
      → (find_backend p xs ≡ none → All (λ y. p y.0 ≡ false) xs)
      → p c ≡ b
      → (if b then some x else find_backend p xs) ≡ none
      → (p c ≡ false) × All (λ y. p y.0 ≡ false) xs
  missed p c x xs true rest h e = absurd cc
  missed p c x xs false rest h e = (h, rest e)

  find_none :
      (p : Client → Bool) (xs : List (Client × A))
      → find_backend p xs ≡ none
      → All (λ x. p x.0 ≡ false) xs
  unfolding find_backend
  find_none p [] e = tt
  find_none p ((c, x) ∷ xs) e = missed p c x xs (p c) (find_none p xs) refl e

  -- The entry of the named backend, if it is among them; otherwise that of a primary; otherwise the first.
  pub data Preferred (name : Option String) (xs : List (Client × A)) : A → Type 0 where
    named : (c : Client) (a : A) → Memᴰ (c, a) xs → has_name name c ≡ true → Preferred name xs a
    primary :
        (c : Client) (a : A)
        → All (λ x. has_name name x.0 ≡ false) xs
        → Memᴰ (c, a) xs
        → c.is_primary ≡ true
        → Preferred name xs a
    first :
        (c : Client) (a : A) (rest : List (Client × A))
        → All (λ x. has_name name x.0 ≡ false) xs
        → All (λ x. x.0.is_primary ≡ false) xs
        → xs ≡ (c, a) ∷ rest
        → Preferred name xs a

none_named : {A : Type 0} (xs : List (Client × A)) → All (λ x. has_name none x.0 ≡ false) xs
none_named [] = tt
none_named (x ∷ xs) = (refl, none_named xs)

choose-Preferred :
    (name : Option String) (c : Client) (r : Params) (rest : List (Client × Params))
    → (by_name by_primary : Option Params) → find_backend (has_name name) ((c, r) ∷ rest) ≡ by_name
    → find_backend (λ b. b.is_primary) ((c, r) ∷ rest) ≡ by_primary
    → Preferred name ((c, r) ∷ rest) (choose by_name by_primary r)
unfolding choose
choose-Preferred name c r rest (some a) o e f =
    let (d, (m, h)) = find_some (has_name name) ((c, r) ∷ rest) a e in named d a m h
choose-Preferred name c r rest none (some a) e f =
    let (d, (m, h)) = find_some (λ b. b.is_primary) ((c, r) ∷ rest) a f in
    primary d a (find_none (has_name name) ((c, r) ∷ rest) e) m h
choose-Preferred name c r rest none none e f =
    first c r rest (find_none (has_name name) ((c, r) ∷ rest) e)
      (find_none (λ b. b.is_primary) ((c, r) ∷ rest) f) refl

pub best_failure-Preferred :
    (failures : List (Client × Exn))
    → 1 ≤ length failures
    → Preferred none failures (best_failure failures)
unfolding best_failure
best_failure-Preferred [] h = absurd (omega arith)
best_failure-Preferred ((c, e) ∷ rest) h = by_primary _ refl
  where
    by_primary :
        (o : Option Exn)
        → find_backend (λ b. b.is_primary) ((c, e) ∷ rest) ≡ o
        → Preferred none ((c, e) ∷ rest) (best_failure ((c, e) ∷ rest))
    by_primary (some x) f =
        let (d, (m, h)) = find_some (λ b. b.is_primary) ((c, e) ∷ rest) x f in
        rw (best_failure, f) (primary d x (none_named ((c, e) ∷ rest)) m h)
    by_primary none f =
        rw (best_failure, f)
          (first c e rest (none_named ((c, e) ∷ rest))
            (find_none (λ b. b.is_primary) ((c, e) ∷ rest) f) refl)

-- What the quorum decides, from the successes and the failures.
pub data Verdict (config : SyncConfig) (required : ℕ) (all : SyncExecutionResult)
    : Result Params → Type 0 where
  accepted :
      (response : Params)
      → required ≤ length all.successes
      → Preferred config.response_backend all.successes response
      → Verdict config required all (ok response)
  refused :
      (e : Exn)
      → length all.successes < required
      → Preferred none all.failures e
      → Verdict config required all (raised e)

module _ (config : SyncConfig) (required : ℕ) where
  select-Verdict :
      (successes : List (Client × Params)) (failures : List (Client × Exn))
      → 1 ≤ required
      → required ≤ length successes
      → Verdict config required
          (record { successes = successes; failures = failures })
          (select_client_response successes config.response_backend)
  unfolding select_client_response
  select-Verdict [] failures h q = absurd (omega arith)
  select-Verdict ((c, r) ∷ rest) failures h q =
      accepted _ q (choose-Preferred config.response_backend c r rest _ _ refl refl)

  judged :
      (all : SyncExecutionResult) (met : Bool)
      → leb required (length all.successes) ≡ met
      → 1 ≤ required
      → required ≤ length all.successes + length all.failures
      → Verdict config required all (
          if met
          then select_client_response all.successes config.response_backend
          else raised (best_failure all.failures))
  judged all true e h q =
      select-Verdict all.successes all.failures h (leb→le required (length all.successes) e)
  judged all false e h q =
      let few : length all.successes < required = leb→lt required (length all.successes) e in
      refused _ few (best_failure-Preferred all.failures (omega arith))

  -- A write of which at least `required` calls succeed is accepted, with the response of the configured
  -- backend if that succeeded, otherwise of the primary if that did, otherwise of the first success. With
  -- fewer, it is refused, with the error of the primary if that failed, and otherwise with the first error. The number
  -- that is required is between one and the number of the calls.
  pub judge-Verdict :
      (all : SyncExecutionResult)
      → 1 ≤ required
      → required ≤ length all.successes + length all.failures
      → Verdict config required all (judge config required all)
  unfolding judge quorum_met
  judge-Verdict all h q = judged all _ refl h q
