-- ===== src/Maintenance/Files.antt =====
-- What a file holds after a file has been written or removed.
use searchcar_desktop.Base.{
  ◌≡◌, refl, ◌∙◌, ap, inl, inr, true, false, none, some, [], ◌∷◌, Bool-cases, str_eq,
}
use searchcar_desktop.Json.Lookup.{str_eq→eq, str_eq_refl}
use searchcar_desktop.Maintenance.{FilePath, path_eq, Content, Files, read_file, unlink}

pub path_eq_refl : (p : FilePath) → path_eq p p ≡ true
path_eq_refl [] = refl
path_eq_refl (a ∷ p) = rw (str_eq_refl a) (path_eq_refl p)

pub path_eq→eq : (p q : FilePath) → path_eq p q ≡ true → p ≡ q
path_eq→eq [] [] h = refl
path_eq→eq [] (b ∷ q) h = cc
path_eq→eq (a ∷ p) [] h = cc
path_eq→eq (a ∷ p) (b ∷ q) h = elim (Bool-cases (str_eq a b)) [
  | inl e ↦ cc (str_eq→eq a b e, path_eq→eq p q (rw e at h))
  | inr e ↦ absurd (cc (e, h))
]

-- a file that has been written
pub read_file-written :
    (p : FilePath) (c : Content) (fs : Files) → read_file p ((p, c) ∷ fs) ≡ some c
unfolding read_file
read_file-written p c fs = rw (path_eq_refl p) refl

pub read_file-other :
    (p q : FilePath) (c : Content) (fs : Files)
    → path_eq p q ≡ false
    → read_file q ((p, c) ∷ fs) ≡ read_file q fs
unfolding read_file
read_file-other p q c fs h = rw h refl

-- a file that has been removed
pub read_file-unlink : (p : FilePath) (fs : Files) → read_file p (unlink p fs) ≡ none
unfolding read_file unlink
read_file-unlink p [] = refl
read_file-unlink p ((q, c) ∷ fs) = elim (Bool-cases (path_eq q p)) [
  | inl e ↦ rw e (read_file-unlink p fs)
  | inr e ↦ rw (e, e) (read_file-unlink p fs)
]

pub read_file-unlink_other :
    (p q : FilePath) (fs : Files) → path_eq p q ≡ false → read_file q (unlink p fs) ≡ read_file q fs
unfolding read_file unlink
read_file-unlink_other p q [] h = refl
read_file-unlink_other p q ((r, c) ∷ fs) h = elim (Bool-cases (path_eq r p)) [
  | inl e ↦
      let k : path_eq r q ≡ false = ap (λ x. path_eq x q) (path_eq→eq r p e) ∙ h in
      rw (e, k) (read_file-unlink_other p q fs h)
  | inr e ↦ rw e (elim (Bool-cases (path_eq r q)) [
    | inl k ↦ rw k refl
    | inr k ↦ rw k (read_file-unlink_other p q fs h)
  ])
]

pub unlink-absent : (p : FilePath) (fs : Files) → read_file p fs ≡ none → unlink p fs ≡ fs
unfolding read_file unlink
unlink-absent p [] h = refl
unlink-absent p ((q, c) ∷ fs) h = elim (Bool-cases (path_eq q p)) [
  | inl e ↦ absurd (cc (e, h))
  | inr e ↦ rw e (cc (unlink-absent p fs (rw e at h)))
]

-- a file that is written where none was, and removed
pub unlink-written :
    (p : FilePath) (c : Content) (fs : Files) → read_file p fs ≡ none → unlink p ((p, c) ∷ fs) ≡ fs
unfolding unlink
unlink-written p c fs h = rw (path_eq_refl p) (unlink-absent p fs h)
