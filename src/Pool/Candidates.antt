-- ===== src/Pool/Candidates.antt =====
-- Which backends a request may use, and in which order.
use mathlib.Core.List.{Perm}
use s3mer.Base.{ℕ, ◌≡◌, Bool, true, Option, none, some, List, [], ◌∷◌, keep_if, if◌then◌else◌}
use s3mer.Dict
use s3mer.Dict.{Dict}
use s3mer.Breaker
use s3mer.Breaker.{Breaker}
use s3mer.Pool.Ordering.{IsSorted}
use s3mer.Pool.{Pool, Client, ask}

-- whether a client's breaker lets a request through at this time
pub is_allowed : ℕ → Dict Breaker → Client → Bool
unfolding ask
is_allowed now breakers c = (ask now c.name breakers).0

-- the answer of a breaker that is known, or that there is none
answer : ℕ → Option Breaker → Bool
answer now none = true
answer now (some b) = (Breaker.allow_request now b).0

-- the clients that are not marked as primary
abbrev pub unmarked : Dict Client → List Client
unmarked [] = []
unmarked ((name, c) ∷ rest) = if c.is_primary then unmarked rest else c ∷ unmarked rest

-- The candidates of a request: the primary first, then the clients not marked as primary in this order,
-- and of these exactly those whose breaker lets the request through.
pub record AreCandidates (le : Client → Client → Bool) (now : ℕ) (pool : Pool) (p : Client)
    (cs : List Client) : Type 0 where
  pub others : List Client
  pub ordered : IsSorted le others
  pub complete : Perm (unmarked pool.clients) others
  pub allowed : cs ≡ keep_if (is_allowed now pool.breakers) (p ∷ others)

pub Listed : (Client → Client → Bool) → ℕ → Pool → Client → Option (List Client) → Type 0
Listed le now pool p none = ⊥
Listed le now pool p (some cs) = AreCandidates le now pool p cs
