-- ===== src/EventLog/Segments.antt =====
-- The segments of the log: what a write leaves alone, and what it has written when it returns.
use l4_ide.Prelude.{
  ℕ, zero, suc, ◌+◌, ◌≤◌, ◌<◌, true, false, List, [], ◌∷◌, ◌++◌, ◌≡◌, refl, sym, ap, ◌∙◌, subst,
  arith, ◌==◌, if◌then◌else◌, Bool-cases, inl, inr,
}
use mathlib.Core.List.{append_assoc, append-nil}
use l4_ide.EventLog.{Event, Head}
use l4_ide.EventLog.Disk.{
  Piece, Storage, call, put_file, check_fence, size, cut, appended, append_to_file, commit,
  later_faults, pure, ◌>>◌,
}
use l4_ide.EventLog.Steps.{segments_below}
use l4_ide.EventLog.Rules.{Ends, and_then-Ends, call-Ends}

pub segments_below-put_file :
    (n k : ℕ) (ps : List Piece) (files : ℕ → List Piece)
    → n ≤ k
    → segments_below n (put_file k ps files) ≡ segments_below n files
unfolding segments_below
segments_below-put_file zero k ps files h = refl
segments_below-put_file (suc n) k ps files h =
    let other : (n == k) ≡ false = ground arith in
    rw (segments_below-put_file n k ps files (omega arith), other) refl

segments_below-suc :
    (k : ℕ) (files : ℕ → List Piece)
    → segments_below (suc k) files ≡ segments_below k files ++ files k
unfolding segments_below
segments_below-suc k files = refl

pub size-append :
    (json_bytes : Event → ℕ) (a b : List Piece)
    → size json_bytes (a ++ b) ≡ size json_bytes a + size json_bytes b
size-append json_bytes [] b = omega arith
size-append json_bytes (p ∷ a) b = omega (arith, size-append json_bytes a b)

-- The segments before the n-th are those of before, the n-th has grown, and head.json is the same.
pub record Keeps (n : ℕ) (s t : Storage) : Type 0 where
  pub before : (k : ℕ) → k < n → t.files k ≡ s.files k
  pub more : List Piece
  pub grown : t.files n ≡ s.files n ++ more
  pub same_head : t.head_file ≡ s.head_file

pub Keeps-refl : (n : ℕ) (s : Storage) → Keeps n s s
Keeps-refl n s = record {
  before = λ k h. refl;
  more = [];
  grown = sym (append-nil (s.files n));
  same_head = refl;
}

module _ (json_bytes : Event → ℕ) (n : ℕ) (s : Storage) where
  pub Keeps-appended :
      (k : ℕ) (chunk : List Piece) (t : Storage)
      → n ≤ k
      → Keeps n s t
      → Keeps n s (appended json_bytes k chunk t)
  Keeps-appended k chunk t h kept = record {
    before = λ j hj. let other : (j == k) ≡ false = ground arith in rw other (kept.before j hj);
    more = if n == k then kept.more ++ chunk else kept.more;
    grown = elim (Bool-cases (n == k)) [
      | inl e ↦
          let same : k ≡ n = ground arith in
          rw (e, same)
            (ap (λ (x : List Piece). x ++ chunk) kept.grown
              ∙ append_assoc (s.files n) kept.more chunk)
      | inr e ↦ rw e kept.grown
    ];
    same_head = kept.same_head;
  }

  Keeps-removed :
      (k : ℕ) (t : Storage)
      → n < k
      → Keeps n s t
      → Keeps n s (record t { files = put_file k [] t.files })
  Keeps-removed k t h kept = record {
    before = λ j hj. let other : (j == k) ≡ false = ground arith in rw other (kept.before j hj);
    more = kept.more;
    grown = let other : (n == k) ≡ false = ground arith in rw other kept.grown;
    same_head = kept.same_head;
  }

  -- What the write has done so far: the log up to the end of the head's segment is `c`, and the head has the
  -- length of its segment.
  pub record Wrote (c : List Piece) (h : Head) (t : Storage) : Type 0 where
    pub kept : Keeps n s t
    pub later : n ≤ h.segment
    pub content : segments_below h.segment t.files ++ t.files h.segment ≡ c
    pub exact : size json_bytes (t.files h.segment) ≡ h.length

  put_file-same : (k : ℕ) (ps : List Piece) (files : ℕ → List Piece) → put_file k ps files k ≡ ps
  put_file-same k ps files = let e : (k == k) ≡ true = ground arith in rw e refl

  -- An append to the head's segment.
  pub Wrote-appended :
      (c chunk : List Piece) (h : Head) (t : Storage)
      → Wrote c h t
      → Wrote
          (c ++ chunk)
          (record h { length = h.length + size json_bytes chunk })
          (appended json_bytes h.segment chunk t)
  Wrote-appended c chunk h t w =
      let k : ℕ = h.segment in
      let here = put_file-same k (t.files k ++ chunk) t.files in
      record {
        kept = Keeps-appended k chunk t w.later w.kept;
        later = w.later;
        content =
            (λ i.
              segments_below-put_file k k (t.files k ++ chunk) t.files (omega arith) i ++ here i)
            ∙ sym (append_assoc (segments_below k t.files) (t.files k) chunk)
            ∙ ap (λ (x : List Piece). x ++ chunk) w.content;
        exact =
            ap (size json_bytes) here
            ∙ size-append json_bytes (t.files k) chunk
            ∙ ap (λ (x : ℕ). x + size json_bytes chunk) w.exact;
      }

  -- A new segment after the head's.
  pub Wrote-removed :
      (c : List Piece) (h : Head) (t : Storage)
      → Wrote c h t
      → Wrote c
          (record { segment = suc h.segment; length = 0 })
          (record t { files = put_file (suc h.segment) [] t.files })
  Wrote-removed c h t w =
      let k : ℕ = h.segment in
      let here = put_file-same (suc k) [] t.files in
      let below = segments_below-put_file (suc k) (suc k) [] t.files (omega arith) in
      record {
        kept = Keeps-removed (suc k) t (let l = w.later in omega arith) w.kept;
        later = let l = w.later in omega arith;
        content =
            (λ i. below i ++ here i)
            ∙ append-nil (segments_below (suc k) t.files)
            ∙ segments_below-suc k t.files
            ∙ w.content;
        exact = ap (size json_bytes) here;
      }

  -- Neither the faults nor the calls that change no file matter.
  pub Wrote-faults :
      (c : List Piece) (h : Head) (t u : Storage)
      → u.files ≡ t.files
      → u.head_file ≡ t.head_file
      → Wrote c h t
      → Wrote c h u
  Wrote-faults c h t u f g w = record {
    kept = record {
      before = λ k hk. (λ i. f i k) ∙ w.kept.before k hk;
      more = w.kept.more;
      grown = (λ i. f i n) ∙ w.kept.grown;
      same_head = g ∙ w.kept.same_head;
    };
    later = w.later;
    content = (λ i. segments_below h.segment (f i) ++ f i h.segment) ∙ w.content;
    exact = (λ i. size json_bytes (f i h.segment)) ∙ w.exact;
  }

  pub commit-Ends :
      (c chunk : List Piece) (h : Head) (t : Storage)
      → Wrote c h t
      → Ends (commit json_bytes h chunk t) (λ h' u. Wrote (c ++ chunk) h' u) (λ u. Keeps n s u)
  unfolding commit check_fence append_to_file
  commit-Ends c [] h t w = subst (λ x. Wrote x h t) (sym (append-nil c)) w
  commit-Ends c (p ∷ ps) h t w =
      let pass : Storage → Storage = λ x. x in
      let chunk : List Piece = p ∷ ps in
      let h' : Head = record h { length = h.length + size json_bytes chunk } in
      and_then-Ends (call pass (λ m x. x) t)
        (λ _. append_to_file json_bytes h.segment chunk >> pure h') (λ _ u. Wrote c h u)
        (λ h2 u. Wrote (c ++ chunk) h2 u) (λ u. Keeps n s u)
        (call-Ends pass (λ m x. x) t (λ u. Wrote c h u) (λ u. Keeps n s u)
          (Wrote-faults c h t (record t { faults = later_faults t.faults }) refl refl w)
          (λ m.
            (Wrote-faults c h t (record t { faults = later_faults t.faults }) refl refl w).kept))
        (λ _ u wu.
          let u' : Storage = record u { faults = later_faults u.faults } in
          let wu' = Wrote-faults c h u u' refl refl wu in
          and_then-Ends (append_to_file json_bytes h.segment chunk u) (λ _. pure h')
            (λ _ v. Wrote (c ++ chunk) h' v) (λ h2 v. Wrote (c ++ chunk) h2 v) (λ v. Keeps n s v)
            (call-Ends (appended json_bytes h.segment chunk)
              (λ m x. appended json_bytes h.segment (cut json_bytes m chunk) x) u
              (λ v. Wrote (c ++ chunk) h' v) (λ v. Keeps n s v) (Wrote-appended c chunk h u' wu')
              (λ m. Keeps-appended h.segment (cut json_bytes m chunk) u' wu'.later wu'.kept))
            (λ _ v wv. wv))
