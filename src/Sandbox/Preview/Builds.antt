-- ===== src/Sandbox/Preview/Builds.antt =====
-- The list of builds of src/sandbox/preview/preview.service.ts, looked up and replaced by nonce.
use bolder_vibes_backend.Common.{
  ℕ, ◌≤◌, ◌≡◌, refl, Bool, true, false, not, ◌&&◌, ◌||◌, Option, none, some, List, [], ◌∷◌, map,
  arith, ◌==◌, if◌then◌else◌, has, any, filter, length, Distinct,
}
use bolder_vibes_backend.Sandbox.Preview.Service.{is_nonce, put_nonce}
use bolder_vibes_backend.Sandbox.Preview.Worlds.{Build, is_over, find_build, replace_build}

abbrev pub nonces : List Build → List ℕ
nonces bs = map (λ b. b.nonce) bs

-- A build of the project that has not ended and holds its nonce.
abbrev pub is_current : (ℕ → Option ℕ) → ℕ → Build → Bool
is_current held p b = b.project_id == p && (not (is_over b.phase) && is_nonce (held p) b.nonce)

abbrev pub without : ℕ → List Build → List Build
without n [] = []
without n (b ∷ bs) = if b.nonce == n then bs else b ∷ without n bs

pub found-nonce : (n : ℕ) (b : Build) (bs : List Build) → find_build n bs ≡ some b → b.nonce ≡ n
found-nonce n b [] e = cc
found-nonce n b (c ∷ cs) e = ground (arith, found-nonce n b cs)

pub any-find :
    (f : Build → Bool) (n : ℕ) (b : Build) (bs : List Build)
    → find_build n bs ≡ some b
    → any f bs ≡ (f b || any f (without n bs))
any-find f n b [] e = cc
any-find f n b (c ∷ cs) e = ground (arith, any-find f n b cs)

pub any-replace :
    (f : Build → Bool) (n : ℕ) (b b' : Build) (bs : List Build)
    → find_build n bs ≡ some b
    → any f (replace_build n b' bs) ≡ (f b' || any f (without n bs))
any-replace f n b b' [] e = cc
any-replace f n b b' (c ∷ cs) e = ground (arith, any-replace f n b b' cs)

pub nonces-replace :
    (n : ℕ) (b' : Build) (bs : List Build)
    → b'.nonce ≡ n
    → nonces (replace_build n b' bs) ≡ nonces bs
nonces-replace n b' [] e = refl
nonces-replace n b' (c ∷ cs) e = ground (arith, nonces-replace n b' cs e)

pub has-without :
    (n : ℕ) (b : Build) (bs : List Build)
    → find_build n bs ≡ some b
    → Distinct (nonces bs)
    → has n (nonces (without n bs)) ≡ false
has-without n b [] e d = cc
has-without n b (c ∷ cs) e d = ground (arith, has-without n b cs)

-- No build is current for a project that holds no nonce, or a nonce that no build has.
pub none_current :
    (held : ℕ → Option ℕ) (p : ℕ) (bs : List Build)
    → held p ≡ none
    → any (is_current held p) bs ≡ false
none_current held p [] e = refl
none_current held p (b ∷ bs) e = ground (arith, none_current held p bs e)

-- A nonce of another project does not matter.
pub put_current :
    (held : ℕ → Option ℕ) (v : Option ℕ) (p q : ℕ) (bs : List Build)
    → (p == q) ≡ false
    → any (is_current (put_nonce p v held) q) bs ≡ any (is_current held q) bs
put_current held v p q [] ne = refl
put_current held v p q (b ∷ bs) ne = rw (put_current held v p q bs ne, ne) refl

pub other_current :
    (held : ℕ → Option ℕ) (p n : ℕ) (bs : List Build)
    → is_nonce (held p) n ≡ true
    → has n (nonces bs) ≡ false
    → any (is_current held p) bs ≡ false
other_current held p n [] e h = refl
other_current held p n (b ∷ bs) e h = ground (arith, other_current held p n bs e)

no_current-length :
    (f : Build → Bool) (bs : List Build) → any f bs ≡ false → length (filter f bs) ≡ 0
no_current-length f [] e = refl
no_current-length f (b ∷ bs) e = ground (arith, no_current-length f bs)

-- With distinct nonces a project has at most one current build.
pub one_current :
    (held : ℕ → Option ℕ) (p : ℕ) (bs : List Build)
    → Distinct (nonces bs)
    → length (filter (is_current held p) bs) ≤ 1
one_current held p [] d = omega arith
one_current held p (b ∷ bs) d = ground (
  arith,
  one_current held p bs d.1,
  no_current-length (is_current held p) bs,
  other_current held p b.nonce bs,
)
