-- ===== src/Audit/Paging.antt =====
-- The pages of the audit log (`PGStore.List` of internal/service/audit/service.go).
use mathlib.Core.Path.{ap₂}
use mathlib.Core.Logic.{∥∥₁_elim}
use mathlib.Core.HLevel.{¬_prop}
use mathlib.Core.Logic.Or
use mathlib.Core.List.{
  Mem, Perm, Permᴰ, append-nil, append_assoc, mem-cons, mem-cons_of_mem, mem-cons_self, not-mem-nil,
}
use mathlib.Core.List.Perm
use native.Mathlib.Bridge.{le_prop}
use native.Mathlib.Nat.{ℕ_set}
use text.Mathlib.TextEquality.{IsScalar-prop}
use auth.Base.{
  All, List, Result, [], ap, arith, drop, fail, if◌then◌else◌, length, ltb, ok, pos, refl, subst,
  suc, sym, take, zero, ℕ, ◌*◌, ◌++◌, ◌+◌, ◌<◌, ◌==◌, ◌∙◌, ◌∷◌, ◌≡◌, ◌≢◌, ◌≤◌,
}
use auth.Audit.Log.{AuditError, AuditLog, AuditLogFilter, found_by, limit_of, list, matches}

drop-nil : {A : Type 0} (n : ℕ) → ◌≡◌ {A = List A} (drop n []) []
drop-nil zero = refl
drop-nil (suc n) = refl

take-drop : {A : Type 0} (n : ℕ) (xs : List A) → take n xs ++ drop n xs ≡ xs
take-drop zero xs = refl
take-drop (suc n) [] = refl
take-drop (suc n) (x ∷ xs) = ap (λ r. x ∷ r) (take-drop n xs)

drop-add : {A : Type 0} (k l : ℕ) (xs : List A) → drop (k + l) xs ≡ drop l (drop k xs)
drop-add zero l xs = ap (λ n. drop n xs) (omega arith)
drop-add (suc k) l [] = drop-nil (suc k + l) ∙ sym (drop-nil l)
drop-add (suc k) l (x ∷ xs) =
    let same : suc k + l ≡ suc (k + l) = omega arith in
    ap (λ n. drop n (x ∷ xs)) same ∙ drop-add k l xs

drop-all : {A : Type 0} (n : ℕ) (xs : List A) → length xs ≤ n → drop n xs ≡ []
drop-all zero [] short = refl
drop-all zero (x ∷ xs) short = absurd (omega (arith, short))
drop-all (suc n) [] short = refl
drop-all (suc n) (x ∷ xs) short = drop-all n xs (omega (arith, short))

abbrev pub IsNewestFirst : List AuditLog → Type 0
IsNewestFirst [] = Unit
IsNewestFirst (x ∷ []) = Unit
IsNewestFirst (x ∷ y ∷ rest) = (y.created_at ≤ x.created_at) × IsNewestFirst (y ∷ rest)

-- What `ORDER BY created_at DESC` promises of a query.
abbrev pub SortsNewestFirst : (List AuditLog → List AuditLog) → Type 0
SortsNewestFirst sorts =
    (rows : List AuditLog) → IsNewestFirst (sorts rows) × Perm (sorts rows) rows

-- No two entries have the same time.
abbrev pub HaveOwnTimes : List AuditLog → Type 0
HaveOwnTimes [] = Unit
HaveOwnTimes (a ∷ rows) = All (λ b. b.created_at ≢ a.created_at) rows × HaveOwnTimes rows

-- A time tells the entry.
abbrev IsTold : List AuditLog → Type 0
IsTold rows = (a b : AuditLog) → Mem a rows → Mem b rows → a.created_at ≡ b.created_at → a ≡ b

AuditLog-set : IsSet AuditLog
AuditLog-set = hlevel (IsScalar-prop)

apart :
    (x a : AuditLog) (rows : List AuditLog)
    → All (λ b. b.created_at ≢ x.created_at) rows
    → Mem a rows
    → a.created_at ≢ x.created_at
apart x a [] others m = absurd (not-mem-nil m)
apart x a (b ∷ rows) (other, others) m =
    Or.elim ¬_prop (mem-cons.0 m) (λ e. rw e other) (λ later. apart x a rows others later)

HaveOwnTimes-IsTold : (rows : List AuditLog) → HaveOwnTimes rows → IsTold rows
HaveOwnTimes-IsTold [] own a b ma mb same = absurd (not-mem-nil ma)
HaveOwnTimes-IsTold (x ∷ rows) (others, own) a b ma mb same =
    Or.elim (AuditLog-set a b) (mem-cons.0 ma)
      (λ first.
        Or.elim (AuditLog-set a b) (mem-cons.0 mb) (λ e. first ∙ sym e)
          (λ later. absurd (apart x b rows others later (sym same ∙ ap (λ r. r.created_at) first))))
      (λ found.
        Or.elim (AuditLog-set a b) (mem-cons.0 mb)
          (λ e. absurd (apart x a rows others found (same ∙ ap (λ r. r.created_at) e)))
          (λ later. HaveOwnTimes-IsTold rows own a b found later same))

length-Permᴰ : {xs ys : List AuditLog} → Permᴰ xs ys → length xs ≡ length ys
length-Permᴰ Permᴰ.nil = refl
length-Permᴰ (Permᴰ.cons e h) = rw (length-Permᴰ h) refl
length-Permᴰ (Permᴰ.swap e f) = refl
length-Permᴰ (Permᴰ.trans h k) = length-Permᴰ h ∙ length-Permᴰ k

length-Perm : {xs ys : List AuditLog} → Perm xs ys → length xs ≡ length ys
length-Perm p = ∥∥₁_elim p (ℕ_set _ _) length-Permᴰ

IsNewestFirst-tail : (a : AuditLog) (l : List AuditLog) → IsNewestFirst (a ∷ l) → IsNewestFirst l
IsNewestFirst-tail a [] sorted = tt
IsNewestFirst-tail a (b ∷ l) sorted = sorted.1

newest :
    (a : AuditLog) (l : List AuditLog)
    → IsNewestFirst (a ∷ l)
    → (x : AuditLog) → Mem x (a ∷ l)
    → x.created_at ≤ a.created_at
newest a [] sorted x m =
    Or.elim le_prop (mem-cons.0 m) (λ e. rw e (omega arith)) (λ none. absurd (not-mem-nil none))
newest a (b ∷ l) (ordered, sorted) x m =
    Or.elim le_prop (mem-cons.0 m) (λ e. rw e (omega arith))
      (λ later. omega (arith, ordered, newest b l sorted x later))

-- Entries that have their own times have one order only.
IsNewestFirst-unique :
    (xs ys : List AuditLog) → IsNewestFirst xs → IsNewestFirst ys → Perm xs ys → IsTold xs → xs ≡ ys
IsNewestFirst-unique [] ys sx sy p own = Perm.nil-eq p
IsNewestFirst-unique (a ∷ l) [] sx sy p own = Perm.eq-nil p
IsNewestFirst-unique (a ∷ l) (b ∷ r) sx sy p own =
    let b_in : Mem b (a ∷ l) = (Perm.mem_iff p).1 mem-cons_self in
    let a_in : Mem a (b ∷ r) = (Perm.mem_iff p).0 mem-cons_self in
    let heads : a ≡ b =
      own a b mem-cons_self b_in (omega (arith, newest a l sx b b_in, newest b r sy a a_in)) in
    let tails = Perm.cons_inv (Perm.trans p (Perm.symm (Perm.cons' heads Perm.rfl))) in
    ap₂ ◌∷◌ heads (
      IsNewestFirst-unique l r (IsNewestFirst-tail a l sx) (IsNewestFirst-tail b r sy) tails
        (λ x y mx my. own x y (mem-cons_of_mem a mx) (mem-cons_of_mem a my)))

-- The entries of an answer.
abbrev pub entries_of : Result AuditError (List AuditLog × ℕ) × List AuditLog → List AuditLog
entries_of (ok page, rows) = page.0
entries_of (fail x, rows) = []

-- The order of each query, by its offset.
module _ (sorts : ℕ → List AuditLog → List AuditLog) where
  -- The entries of so many pages of a size, one after the other.
  abbrev pub pages : AuditLogFilter → List AuditLog → ℕ → ℕ → ℕ → List AuditLog
  pages f rows size from zero = []
  pages f rows size from (suc n) =
      entries_of (list (sorts from) (record f { limit = pos size; offset = pos from }) rows)
      ++ pages f rows size (from + size) n

  list-entries :
      (f : AuditLogFilter) (rows : List AuditLog) (size from : ℕ)
      → 0 < size
      → size ≤ 100
      → entries_of (list (sorts from) (record f { limit = pos size; offset = pos from }) rows)
        ≡ take size (drop from (sorts from (found_by f rows)))
  unfolding list limit_of matches
  list-entries f rows size from some_size small =
      let same : (if size == 0 then 50 else if ltb 100 size then 100 else size) ≡ size =
        ground (arith, some_size, small) in
      ap (λ n. take n (drop from (sorts from (found_by f rows)))) same

  pages-drop :
      (f : AuditLogFilter) (rows found : List AuditLog) (size from n : ℕ)
      → ((start : ℕ) → sorts start (found_by f rows) ≡ found)
      → 0 < size
      → size ≤ 100
      → pages f rows size from n ++ drop (from + n * size) found ≡ drop from found
  pages-drop f rows found size from zero same some_size small = ap (λ k. drop k found) (omega arith)
  pages-drop f rows found size from (suc n) same some_size small =
      let rest = pages-drop f rows found size (from + size) n same some_size small in
      let sum : from + suc n * size ≡ from + size + n * size = omega arith in
      append_assoc _ (pages f rows size (from + size) n) _
      ∙ ap
          (λ r.
            entries_of (list (sorts from) (record f { limit = pos size; offset = pos from }) rows)
            ++ r)
          (ap (λ k. pages f rows size (from + size) n ++ drop k found) sum ∙ rest)
      ∙ rw (list-entries f rows size from some_size small, same from)
          (ap (λ r. take size (drop from found) ++ r) (drop-add from size found)
            ∙ take-drop size (drop from found))

  -- If every query orders what it finds by time, the newest first, and no two of the matching entries
  -- have the same time, then with a size between 1 and 100 and pages enough for all matching entries,
  -- the pages, one after the other, are the matching entries, each once, with the newest first.
  pub list-pages :
      (f : AuditLogFilter) (rows : List AuditLog) (size n : ℕ)
      → ((from : ℕ) → SortsNewestFirst (sorts from))
      → HaveOwnTimes (found_by f rows)
      → 0 < size
      → size ≤ 100
      → length (found_by f rows) ≤ n * size
      → IsNewestFirst (pages f rows size 0 n) × Perm (pages f rows size 0 n) (found_by f rows)
  list-pages f rows size n sorted own some_size small enough =
      let found = sorts 0 (found_by f rows) in
      let (first, all_found) = sorted 0 (found_by f rows) in
      let same : (start : ℕ) → sorts start (found_by f rows) ≡ found = λ start.
        let (order, kept) = sorted start (found_by f rows) in
        IsNewestFirst-unique (sorts start (found_by f rows)) found order first
          (Perm.trans kept (Perm.symm all_found))
          (λ a b ma mb.
            HaveOwnTimes-IsTold (found_by f rows) own a b ((Perm.mem_iff kept).0 ma)
              ((Perm.mem_iff kept).0 mb)) in
      let none_left : drop (0 + n * size) found ≡ [] =
        drop-all (0 + n * size) found (omega (arith, enough, length-Perm all_found)) in
      let whole : found ≡ pages f rows size 0 n =
        sym (pages-drop f rows found size 0 n same some_size small)
        ∙ ap (λ r. pages f rows size 0 n ++ r) none_left
        ∙ append-nil (pages f rows size 0 n) in
      (subst IsNewestFirst whole first, subst (λ l. Perm l (found_by f rows)) whole all_found)
