-- ===== src/Mediator/Ballots.antt =====
-- The two-phase commit that `MediatorBase` promises, without ids, clocks and the order of its maps:
-- a board of open transactions, each with a ballot that says who takes part and who has voted.
use actor_model_server.Base.{
  ℕ, ◌≡◌, ◌≢◌, Bool, true, false, Option, none, some, List, [], ◌∷◌, ◌++◌, ◌==◌, if◌then◌else◌, map,
  All,
}
use actor_model_server.Base.UnorderedMap.{Map, find, member}
use actor_model_server.Mediator.{
  Mediator, Transaction, Participant, Event, on_completed, on_failed, is_prepared,
}
use actor_model_server.Mediator.Calls.{Call, start, ready, timer}

-- Nothing for who does not take part; otherwise whether the vote is in.
abbrev pub Ballot : Type 0
Ballot = ℕ → Option Bool

abbrev pub Board : Type 0
Board = ℕ → Option Ballot

abbrev pub put {ℓ} : {X : Type ℓ} → ℕ → X → (ℕ → X) → ℕ → X
put k x f j = if k == j then x else f j

abbrev pub no_ballot : Ballot
no_ballot pid = none

abbrev pub no_board : Board
no_board tid = none

abbrev pub ballot_or_new : Option Ballot → Ballot
ballot_or_new none = no_ballot
ballot_or_new (some b) = b

abbrev pub enroll : List ℕ → Ballot → Ballot
enroll pids b pid = if member pid pids then some false else b pid

pub data Outcome : Type 0 where
  commit abort : ℕ → Outcome

-- Different numbers.
abbrev pub AreDistinct : List ℕ → Type 0
AreDistinct [] = Unit
AreDistinct (k ∷ ks) = (member k ks ≡ false) × AreDistinct ks

-- What a call may do with the board, and what it may announce.
pub data Step (b : Board) (c : Call) (out : List Outcome) (b' : Board) : Type 0 where
  -- A transaction opens, nobody having voted.
  opens :
      (tid : ℕ) (pids : List ℕ) (timeout : ℕ)
      → c ≡ start pids timeout
      → out ≡ []
      → b' ≡ put tid (some (enroll pids (ballot_or_new (b tid)))) b
      → Step b c out b'
  -- A report of a transaction that is not open.
  unknown :
      (tid pid : ℕ) (success : Bool)
      → c ≡ ready tid pid success
      → b tid ≡ none
      → out ≡ []
      → b' ≡ b
      → Step b c out b'
  -- A report of somebody who does not take part.
  stranger :
      (tid pid : ℕ) (success : Bool) (ballot : Ballot)
      → c ≡ ready tid pid success
      → b tid ≡ some ballot
      → ballot pid ≡ none
      → out ≡ []
      → b' ≡ b
      → Step b c out b'
  -- A vote, with that of `missing` still out.
  votes :
      (tid pid missing : ℕ) (ballot : Ballot) (earlier : Bool)
      → c ≡ ready tid pid true
      → b tid ≡ some ballot
      → ballot pid ≡ some earlier
      → missing ≢ pid
      → ballot missing ≡ some false
      → out ≡ []
      → b' ≡ put tid (some (put pid (some true) ballot)) b
      → Step b c out b'
  -- The last vote.
  commits :
      (tid pid : ℕ) (ballot : Ballot) (earlier : Bool)
      → c ≡ ready tid pid true
      → b tid ≡ some ballot
      → ballot pid ≡ some earlier
      → ((j : ℕ) → j ≢ pid → ballot j ≢ some false)
      → out ≡ commit tid ∷ []
      → b' ≡ put tid none b
      → Step b c out b'
  aborts :
      (tid pid : ℕ) (ballot : Ballot) (earlier : Bool)
      → c ≡ ready tid pid false
      → b tid ≡ some ballot
      → ballot pid ≡ some earlier
      → out ≡ abort tid ∷ []
      → b' ≡ put tid none b
      → Step b c out b'
  -- Some open transactions are aborted, each once.
  expires :
      (tids : List ℕ)
      → c ≡ timer
      → AreDistinct tids
      → All (λ tid. b tid ≢ none) tids
      → out ≡ map abort tids
      → b' ≡ (λ tid. if member tid tids then none else b tid)
      → Step b c out b'

abbrev pub Run : Board → List (ℕ × Call) → List Outcome → Board → Type 0
Run b [] out b' = (out ≡ []) × (b' ≡ b)
Run b ((now, c) ∷ cs) out b' =
    (mid : Board) × (first : List Outcome) × (rest : List Outcome) × Step b c first mid
    × Run mid cs rest b'
    × (out ≡ first ++ rest)

-- The board and the announcements of the code's mediator.
abbrev pub vote_of : Option Participant → Option Bool
vote_of none = none
vote_of (some p) = some (is_prepared p.state)

abbrev pub ballot_of : Map Participant → Ballot
ballot_of ps pid = vote_of (find pid ps)

abbrev pub ballot_in : Option Transaction → Option Ballot
ballot_in none = none
ballot_in (some t) = some (ballot_of t.participants)

abbrev pub board_of : Mediator → Board
board_of m tid = ballot_in (find tid m.active)

abbrev pub announced : List Event → List Outcome
announced [] = []
announced (on_completed tid t ∷ events) = commit tid ∷ announced events
announced (on_failed tid t ∷ events) = abort tid ∷ announced events
announced (_ ∷ events) = announced events
