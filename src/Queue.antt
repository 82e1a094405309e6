-- ===== src/Queue.antt =====
-- The job queues of app/worker/queue.go: their state, their errors and what a job is
-- (domain/validation/entities.go). Identifiers are numbers, uuid.Nil being 0; a time is a number of
-- nanoseconds.
use Prim.Native.String.{String}
use mailvault.Base.{
  ℕ, zero, suc, ◌≡◌, refl, Bool, true, false, ◌&&◌, not, List, [], ◌∷◌, ◌++◌, Option, none, some,
  ltb, leb, ◌==◌, if◌then◌else◌, length, ℤ, pos, negsuc, z_ltb, z_eqb,
}
pub mod Priority
pub mod Memory
pub mod Email
pub mod Waiters
pub mod Scheduler
pub mod Interface
mod Tests

-- A ValidationType is a string: the four constants, or any other text.
pub data ValidationType : Type 0 where
  mx_record txt_record ownership full_validation : ValidationType
  other_type : String → ValidationType

pub record ValidationJob : Type 0 where
  pub id : ℕ
  pub domain_id : ℕ
  pub domain_name : String
  pub type : ValidationType
  pub priority : ℤ
  pub created_at : ℕ
  pub attempts : ℕ
  pub last_error : String

-- The errors of Push and Pop: ErrQueueClosed, ErrQueueFull and the email queue's three.
pub data QueueError : Type 0 where
  queue_closed queue_full queue_empty : QueueError

-- The fields of PriorityQueue, InMemoryQueue and EmailPriorityQueue but for the lock and the
-- condition, which `Waiters` models.
pub record JobQueue {ℓ} (A : Type ℓ) : Type ℓ where
  pub jobs : List A
  pub closed : Bool
  pub max_size : ℤ

-- maxSize > 0 && len >= maxSize
abbrev pub is_full : ℤ → ℕ → Bool
is_full (pos m) n = ltb 0 m && leb m n
is_full (negsuc m) n = false

-- How one pass of Pop's loop ends: it sleeps on the condition, or returns.
pub data Popping {ℓ} (A : Type ℓ) : Type ℓ where
  sleeps : Popping A
  cancelled : Popping A
  fails : QueueError → Popping A
  pops : A → JobQueue A → Popping A

unfoldable pub clear {ℓ} : {A : Type ℓ} → JobQueue A → JobQueue A
clear q = record q { jobs = [] }

unfoldable pub close {ℓ} : {A : Type ℓ} → JobQueue A → JobQueue A
close q = if q.closed then q else record q { closed = true }

unfoldable pub size {ℓ} : {A : Type ℓ} → JobQueue A → ℕ
size q = length q.jobs

unfoldable pub is_empty {ℓ} : {A : Type ℓ} → JobQueue A → Bool
is_empty q = length q.jobs == 0
