-- ===== src/Chat/Tools/Cache/Entries.antt =====
-- The list of entries of src/conversations/chat-ai.service.ts, as a map from paths.
use bolder_vibes_backend.Common.{
  String, ◌≡◌, refl, sym, ◌∙◌, subst, ◌⊎◌, inl, inr, true, false, none, some, List, [], ◌∷◌, arith,
  ◌=s=◌, eq_iff, if◌then◌else◌, Bool-cases,
}
use bolder_vibes_backend.Chat.Tools.{FileContext, find_entry, replace_entry, push_entry, drop_entry}

-- Two texts: equal, or told apart.
pub same_or_not : (a b : String) → (a ≡ b) ⊎ ((a =s= b) ≡ false)
same_or_not a b = elim (Bool-cases (a =s= b)) [ inl e ↦ inl ((eq_iff a b).0 e) | inr ne ↦ inr ne ]

-- A text that is one of two different ones is not the other.
pub apart : (a b c : String) → (a =s= b) ≡ true → (b =s= c) ≡ false → (a =s= c) ≡ false
apart a b c e ne = subst (λ z. (z =s= c) ≡ false) (sym ((eq_iff a b).0 e)) ne

pub eq_flip : (a b : String) → (a =s= b) ≡ false → (b =s= a) ≡ false
eq_flip a b ne = elim (same_or_not b a) [
  | inl e ↦ let it : (a =s= b) ≡ true = (eq_iff a b).1 (sym e) in absurd (ground arith)
  | inr other ↦ other
]

pub find_entry-path :
    (q : String) (fs : List FileContext) (f : FileContext) → find_entry q fs ≡ some f → f.path ≡ q
find_entry-path q [] f e = absurd (ground arith)
find_entry-path q (g ∷ fs) f e = elim (Bool-cases (g.path =s= q)) [
  | inl hit ↦ let it : g ≡ f = ground arith in subst (λ z. z.path ≡ q) it ((eq_iff g.path q).0 hit)
  | inr miss ↦ find_entry-path q fs f (ground arith)
]

pub find-push :
    (q : String) (e : FileContext) (fs : List FileContext)
    → find_entry q fs ≡ none
    → find_entry q (push_entry e fs) ≡ (if e.path =s= q then some e else none)
find-push q e [] h = refl
find-push q e (f ∷ fs) h = ground (arith, find-push q e fs)

pub find-push_other :
    (q : String) (e : FileContext) (fs : List FileContext)
    → (e.path =s= q) ≡ false
    → find_entry q (push_entry e fs) ≡ find_entry q fs
find-push_other q e [] h = ground arith
find-push_other q e (f ∷ fs) h = ground (arith, find-push_other q e fs)

pub find-replace :
    (p q : String) (e : FileContext) (fs : List FileContext)
    → e.path ≡ p
    → (p =s= q) ≡ false
    → find_entry q (replace_entry p e fs) ≡ find_entry q fs
find-replace p q e [] same ne = refl
find-replace p q e (f ∷ fs) same ne = elim (Bool-cases (f.path =s= p)) [
  | inl hit ↦
      let a = apart f.path p q hit ne in
      let b : (e.path =s= q) ≡ false = subst (λ z. (z =s= q) ≡ false) (sym same) ne in ground arith
  | inr miss ↦ ground (arith, find-replace p q e fs same ne)
]

pub find-replaced :
    (p : String) (e f : FileContext) (fs : List FileContext)
    → e.path ≡ p
    → find_entry p fs ≡ some f
    → find_entry p (replace_entry p e fs) ≡ some e
find-replaced p e f [] same h = absurd (ground arith)
find-replaced p e f (g ∷ fs) same h =
    let it : (e.path =s= p) ≡ true = (eq_iff e.path p).1 same in
    ground (arith, find-replaced p e f fs same)

pub replace-none :
    (p : String) (e : FileContext) (fs : List FileContext)
    → find_entry p fs ≡ none
    → replace_entry p e fs ≡ fs
replace-none p e [] h = refl
replace-none p e (f ∷ fs) h = ground (arith, replace-none p e fs)

-- No path has two entries.
abbrev pub DistinctPaths : List FileContext → Type 0
DistinctPaths [] = Unit
DistinctPaths (f ∷ fs) = (find_entry f.path fs ≡ none) × DistinctPaths fs

pub find-drop_other :
    (p q : String) (fs : List FileContext)
    → (p =s= q) ≡ false
    → find_entry q (drop_entry p fs) ≡ find_entry q fs
find-drop_other p q [] ne = refl
find-drop_other p q (f ∷ fs) ne = elim (Bool-cases (f.path =s= p)) [
  | inl hit ↦ let a = apart f.path p q hit ne in ground arith
  | inr miss ↦ ground (arith, find-drop_other p q fs ne)
]

pub find-dropped :
    (p : String) (fs : List FileContext) → DistinctPaths fs → find_entry p (drop_entry p fs) ≡ none
find-dropped p [] d = refl
find-dropped p (f ∷ fs) d = elim (Bool-cases (f.path =s= p)) [
  | inl hit ↦
      let a : find_entry p fs ≡ none =
        subst (λ z. find_entry z fs ≡ none) ((eq_iff f.path p).0 hit) d.0 in
      ground arith
  | inr miss ↦ ground (arith, find-dropped p fs d.1)
]

pub drop-DistinctPaths :
    (p : String) (fs : List FileContext) → DistinctPaths fs → DistinctPaths (drop_entry p fs)
drop-DistinctPaths p [] d = tt
drop-DistinctPaths p (f ∷ fs) d = elim (Bool-cases (f.path =s= p)) [
  | inl hit ↦ rw hit d.1
  | inr miss ↦
      rw miss
        (find-drop_other p f.path fs (eq_flip f.path p miss) ∙ d.0, drop-DistinctPaths p fs d.1)
]

pub push-DistinctPaths :
    (e : FileContext) (fs : List FileContext)
    → find_entry e.path fs ≡ none
    → DistinctPaths fs
    → DistinctPaths (push_entry e fs)
push-DistinctPaths e [] h d = (refl, tt)
push-DistinctPaths e (f ∷ fs) h d =
    let other : (f.path =s= e.path) ≡ false = ground arith in
    (
      find-push_other f.path e fs (eq_flip f.path e.path other) ∙ d.0,
      push-DistinctPaths e fs (ground arith) d.1,
    )

pub replace-DistinctPaths :
    (p : String) (e : FileContext) (fs : List FileContext)
    → e.path ≡ p
    → DistinctPaths fs
    → DistinctPaths (replace_entry p e fs)
replace-DistinctPaths p e [] same d = tt
replace-DistinctPaths p e (f ∷ fs) same d = elim (Bool-cases (f.path =s= p)) [
  | inl hit ↦
      rw hit (subst (λ z. find_entry z fs ≡ none) ((eq_iff f.path p).0 hit ∙ sym same) d.0, d.1)
  | inr miss ↦ rw miss (
    find-replace p f.path e fs same (eq_flip f.path p miss) ∙ d.0,
    replace-DistinctPaths p e fs same d.1,
  )
]
