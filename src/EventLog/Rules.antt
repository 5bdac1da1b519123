-- ===== src/EventLog/Rules.antt =====
-- Rules for sequences of calls: what holds where they return, and what holds where they throw.
use l4_ide.Prelude.{ℕ}
use l4_ide.EventLog.Disk.{
  Storage, Fault, fine, fails, Outcome, went, threw, Io, and_then, answer, call, next_fault,
  later_faults,
}

abbrev pub Ends {ℓ κ} :
    {A : Type ℓ} → Outcome A → (A → Storage → Type κ) → (Storage → Type κ) → Type κ
Ends (went a s) Q R = Q a s
Ends (threw s) Q R = R s

pub and_then-Ends {ℓ κ μ} :
    {A : Type ℓ} {B : Type κ} (o : Outcome A) (f : A → Io B) (P : A → Storage → Type μ)
    (Q : B → Storage → Type μ) (R : Storage → Type μ)
    → Ends o P R
    → ((a : A) (s : Storage) → P a s → Ends (f a s) Q R)
    → Ends (and_then o f) Q R
and_then-Ends (went a s) f P Q R h k = k a s h
and_then-Ends (threw s) f P Q R h k = h

answer-Ends {μ} :
    (done : Storage → Storage) (broken : ℕ → Storage → Storage) (f : Fault) (s : Storage)
    (Q : Storage → Type μ) (R : Storage → Type μ)
    → Q (done s)
    → ((n : ℕ) → R (broken n s))
    → Ends (answer done broken f s) (λ _ t. Q t) R
answer-Ends done broken fine s Q R h k = h
answer-Ends done broken (fails n) s Q R h k = k n

pub call-Ends {μ} :
    (done : Storage → Storage) (broken : ℕ → Storage → Storage) (s : Storage) (Q : Storage → Type μ)
    (R : Storage → Type μ)
    → Q (done (record s { faults = later_faults s.faults }))
    → ((n : ℕ) → R (broken n (record s { faults = later_faults s.faults })))
    → Ends (call done broken s) (λ _ t. Q t) R
unfolding call
call-Ends done broken s Q R h k =
    answer-Ends done broken (next_fault s.faults) (record s { faults = later_faults s.faults }) Q R
      h k

pub Ends-mono {ℓ μ} :
    {A : Type ℓ} (o : Outcome A) (P Q : A → Storage → Type μ) (R S : Storage → Type μ)
    → Ends o P R
    → ((a : A) (s : Storage) → P a s → Q a s)
    → ((s : Storage) → R s → S s)
    → Ends o Q S
Ends-mono (went a s) P Q R S h f g = f a s h
Ends-mono (threw s) P Q R S h f g = g s h

pub Ends-both {ℓ μ} :
    {A : Type ℓ} (o : Outcome A) (P Q : A → Storage → Type μ) (R S : Storage → Type μ)
    → Ends o P R
    → Ends o Q S
    → Ends o (λ a s. P a s × Q a s) (λ s. R s × S s)
Ends-both (went a s) P Q R S g h = (g, h)
Ends-both (threw s) P Q R S g h = (g, h)
