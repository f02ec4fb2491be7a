-- ===== src/Backup/Archives.antt =====
-- Archive and extract of backup/backup.go: what is archived is what is extracted.
use sisyphus.Prelude.{
  ℕ, String, ◌≡◌, refl, sym, subst, inl, inr, Bool, true, false, List, [], ◌∷◌, ◌++◌, arith, str_eq,
  ltb, any, map, All, append_assoc, append-nil, Bool-cases,
}
use sisyphus.Fault.{Error, Result, ok, err}
use sisyphus.Engine.{Db, Exec}
use sisyphus.Engine.Triples.{
  Post, Triple, Triple-pure, Triple-raise, Triple-bind, Triple-call, Triple-imp,
}
use sisyphus.Backup.{
  Lib, File, Header, Dir, snapshot, write_files, archive_paths, some_files, archive,
  max_entry_bytes, is_no_name, put_entry, take_header, extract, duplicate_entry, nothing_to_back_up,
}

abbrev pub has_name : String → List File → Bool
has_name n files = any (λ g. str_eq g.name n) files

-- No file has the name of one before it.
abbrev pub Fresh : List File → List File → Type 0
Fresh out [] = Unit {0}
Fresh out (f ∷ files) = (has_name f.name out ≡ false) × Fresh (out ++ f ∷ []) files

Fresh-snoc :
    (out files : List File) (f : File)
    → Fresh out files
    → has_name f.name (out ++ files) ≡ false
    → Fresh out (files ++ f ∷ [])
Fresh-snoc out [] f h e = (subst (λ l. has_name f.name l ≡ false) (append-nil out) e, tt)
Fresh-snoc out (g ∷ files) f h e = (
  h.0,
  Fresh-snoc (out ++ g ∷ []) files f h.1
      (subst (λ l. has_name f.name l ≡ false) (sym (append_assoc out (g ∷ []) files)) e),
)

abbrev Anything : Dir → Type 0
Anything t = Unit {0}

abbrev Named : List File → Dir → Type 0
Named files t = Fresh [] files

abbrev Whatever : Error → Dir → Type 0
Whatever e t = Unit {0}

any_action : {A : Type 0} (m : Exec Dir A) → Triple Anything m (λ a. Anything) Whatever
any_action m = record { at = λ s h. always (m s).0 (m s).1.table }
  where
    always : {A : Type 0} (r : Result A) (t : Dir) → Post (λ a. Anything) Whatever r t
    always (ok a) t = tt
    always (err e) t = tt

write_files-Named :
    (out files : List File) → Triple (Named out) (write_files out files) Named Whatever
unfolding write_files
write_files-Named out [] = Triple-pure out (λ t h. h)
write_files-Named out (f ∷ files) = elim (Bool-cases (has_name f.name out)) [
  | inl e ↦ rw e (Triple-raise duplicate_entry (λ t h. tt))
  | inr e ↦ rw e (
      Triple-bind (Triple-call (λ t e h. tt)) (λ u. Triple-bind (Triple-call (λ t e h. tt)) (λ u.
        Triple-imp (write_files-Named (out ++ f ∷ []) files) (λ t h. Fresh-snoc [] out f h e)
          (λ o t h. h) (λ e t h. h))))
]

snapshot-Named :
    (lib : Lib) (p : String) (out : List File)
    → Triple (Named out) (snapshot lib p) (λ files. Named out) Whatever
snapshot-Named lib p out = record {
  at = λ s h. kept (snapshot lib p s).0 (snapshot lib p s).1.table h;
}
  where
    kept :
        (r : Result (List File)) (t : Dir) → Fresh [] out → Post (λ files. Named out) Whatever r t
    kept (ok a) t h = h
    kept (err e) t h = tt

archive_paths-Named :
    (lib : Lib) (paths : List String) (out : List File)
    → Triple (Named out) (archive_paths lib out paths) Named Whatever
unfolding archive_paths
archive_paths-Named lib [] out = Triple-pure out (λ t h. h)
archive_paths-Named lib (p ∷ paths) out = Triple-bind (Triple-call (λ t e h. tt)) (λ u.
    Triple-bind (snapshot-Named lib p out) (λ files.
      Triple-bind (write_files-Named out files) (λ out'. archive_paths-Named lib paths out')))

some_files-Named : (files : List File) → Triple (Named files) (some_files files) Named Whatever
some_files-Named [] = Triple-raise nothing_to_back_up (λ t h. tt)
some_files-Named (f ∷ files) = Triple-pure (f ∷ files) (λ t h. h)

archive-Named :
    (lib : Lib) (paths : List String) → Triple Anything (archive lib paths) Named Whatever
unfolding archive
archive-Named lib paths = Triple-bind (Triple-call (λ t e h. tt)) (λ u.
    Triple-bind
      (Triple-imp (archive_paths-Named lib paths []) (λ t h. tt) (λ o t h. h) (λ e t h. h))
      (λ files. Triple-bind (Triple-call (λ t e h. tt)) (λ u. some_files-Named files)))

put_entry-fresh :
    (f : File) (out : List File)
    → has_name f.name out ≡ false
    → put_entry f.name f.bytes out ≡ out ++ f ∷ []
unfolding put_entry
put_entry-fresh f [] e = refl
put_entry-fresh f (g ∷ out) e = ground (arith, put_entry-fresh f out)

-- The header that WriteHeader and Write make of a file, with its bytes.
abbrev pub header_of : (String → ℕ) → File → Result Header
header_of size f =
    ok (record { name = f.name; regular = true; content = ok f.bytes; size = size f.bytes })

-- A file that an archive can hold: its name is a base name, and its bytes are within the bound.
abbrev pub Storable : Lib → (String → ℕ) → File → Type 0
Storable lib size f =
    (lib.base (lib.clean f.name) ≡ f.name)
    × (is_no_name f.name ≡ false)
    × (ltb max_entry_bytes (size f.bytes) ≡ false)

take_header-put :
    (lib : Lib) (size : String → ℕ) (out : List File) (f : File)
    → Storable lib size f
    → has_name f.name out ≡ false
    → take_header lib out
        (record { name = f.name; regular = true; content = ok f.bytes; size = size f.bytes })
      ≡ ok (out ++ f ∷ [])
unfolding take_header
take_header-put lib size out f h e = rw (h.0, h.1, h.2, put_entry-fresh f out e)

extract-headers :
    (lib : Lib) (size : String → ℕ) (out files : List File)
    → Fresh out files
    → All (Storable lib size) files
    → extract lib out (map (header_of size) files) ≡ ok (out ++ files)
unfolding extract
extract-headers lib size out [] h k = rw (append-nil out)
extract-headers lib size out (f ∷ files) h k = rw (take_header-put lib size out f k.0 h.0) (
    rw (extract-headers lib size (out ++ f ∷ []) files h.1 k.1)
      (rw (append_assoc out (f ∷ []) files)))

Fresh-of :
    (files : List File) (r : Result (List File)) (t : Dir)
    → r ≡ ok files
    → Post Named Whatever r t
    → Fresh [] files
Fresh-of files (ok a) t e h = subst (Fresh []) (ok-inj e) h
  where
    ok-inj : ok a ≡ ok files → a ≡ files
    ok-inj e = cc
Fresh-of files (err x) t e h = cc

-- What Archive returned, with headers of its own, extract takes out again, every file in order under
-- its name with its bytes, provided that the names are base names and the files within the bound on
-- an entry.
pub extract-archive :
    (lib : Lib) (size : String → ℕ) (paths : List String) (s : Db Dir) (files : List File)
    → (archive lib paths s).0 ≡ ok files
    → All (Storable lib size) files
    → extract lib [] (map (header_of size) files) ≡ ok files
extract-archive lib size paths s files e k =
    extract-headers lib size [] files
      (Fresh-of files (archive lib paths s).0 (archive lib paths s).1.table e
        ((archive-Named lib paths).at s tt))
      k
