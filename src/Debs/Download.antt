-- ===== src/Debs/Download.antt =====
-- What `download_debs` leaves on the disk for the packages that `resolve` returns.
use embeded_convey_belt.Prelude.{
  ◌≡◌, ◌≢◌, refl, ◌⊎◌, inl, inr, Option, none, some, true, false, List, [], ◌∷◌, ◌++◌, All, arith,
  Bool-cases,
}
use embeded_convey_belt.Py.{Result, ok, err, os_error, key_error, Text}
use embeded_convey_belt.Event.Fields.{text_eq_iff}
use embeded_convey_belt.Debs.{Package, Index, find, member, Bfs, resolve}
use embeded_convey_belt.Debs.Fetch.{
  Retrieval, cut_short, Disk, dest, provide, then_path, download_next, download_all, download_debs,
  makedirs,
}
use embeded_convey_belt.Debs.Correct.Found.{resolve-IsWanted}

-- Every name has an entry.
abbrev pub IsIndexed : Index → List Text → Type 0
IsIndexed db [] = Unit
IsIndexed db (pkg ∷ pkgs) = ((p : Package) × (find db pkg ≡ some p)) × IsIndexed db pkgs

members-IsIndexed :
    (db : Index) (pkgs : List Text)
    → ((pkg : Text) → member pkg pkgs ≡ true → (p : Package) × (find db pkg ≡ some p))
    → IsIndexed db pkgs
members-IsIndexed db [] h = tt
members-IsIndexed db (pkg ∷ pkgs) h = (
  h pkg (ground (arith, (text_eq_iff pkg pkg).1)),
  members-IsIndexed db pkgs (λ q m. h q (ground (arith, m))),
)

module _ (base_url outdir : Text) (db : Index) where
  -- The paths of the packages.
  abbrev pub path_of : Option Package → List Text
  path_of none = []
  path_of (some p) = dest base_url outdir db p ∷ []

  abbrev pub paths_of : List Text → List Text
  paths_of [] = []
  paths_of (pkg ∷ pkgs) = path_of (find db pkg) ++ paths_of pkgs

  -- Every file of the one disk is on the other.
  abbrev pub IsKept : Disk → Disk → Type 0
  IsKept disk disk' = (path : Text) → member path disk.files ≡ true → member path disk'.files ≡ true

  provide_calm :
      (p : Package) (disk : Disk)
      → disk.retrievals ≡ []
      → (disk' : Disk) × (provide base_url outdir db p disk ≡ (ok tt, disk'))
        × (disk'.retrievals ≡ [])
        × (member (dest base_url outdir db p) disk'.files ≡ true)
        × IsKept disk disk'
  provide_calm p disk calm =
      let path = dest base_url outdir db p in
      elim (Bool-cases (member path disk.files)) [
        | inl cached ↦ (disk, rw cached refl, calm, cached, λ path m. m)
        | inr absent ↦ (
          record disk {
            files = path ∷ disk.files;
            retrievals = [];
            fetched = disk.fetched ++ (base_url ++ p.filename, path) ∷ [];
          },
          rw (absent, calm) refl,
          refl,
          ground (arith, (text_eq_iff path path).1),
          (λ other m. ground (arith, m)),
        )
      ]

  download_calm :
      (pkgs : List Text) (disk : Disk)
      → IsIndexed db pkgs
      → disk.retrievals ≡ []
      → (disk' : Disk) × (download_all base_url outdir db pkgs disk ≡ (ok (paths_of pkgs), disk'))
        × All (λ path. member path disk'.files ≡ true) (paths_of pkgs)
        × IsKept disk disk'
  unfolding download_all
  download_calm [] disk h calm = (disk, refl, tt, λ path m. m)
  download_calm (pkg ∷ pkgs) disk ((p, there), h) calm =
      let (disk₁, got, calm₁, held, kept₁) = provide_calm p disk calm in
      let (disk₂, rest, all_there, kept₂) = download_calm pkgs disk₁ h calm₁ in
      (
        disk₂,
        rw (there, got, rest) refl,
        rw there (kept₂ (dest base_url outdir db p) held, all_there),
        (λ path m. kept₂ path (kept₁ path m)),
      )

  then_path-ne-key_error :
      (path : Text) (out : Result (List Text) × Disk)
      → out.0 ≢ err key_error
      → (then_path base_url outdir db path out).0 ≢ err key_error
  then_path-ne-key_error path (ok paths, disk) h = λ e. cc
  then_path-ne-key_error path (err x, disk) h = h

  provide_cases :
      (p : Package) (disk : Disk)
      → ((provide base_url outdir db p disk).0 ≡ ok tt)
        ⊎ ((provide base_url outdir db p disk).0 ≡ err os_error)
  provide_cases p disk = ground arith

  download_next-ne-key_error :
      (path : Text) (next : Disk → Result (List Text) × Disk) (out : Result (Unit {0}) × Disk)
      → (out.0 ≡ ok tt) ⊎ (out.0 ≡ err os_error)
      → ((later : Disk) → (next later).0 ≢ err key_error)
      → (download_next base_url outdir db path next out).0 ≢ err key_error
  download_next-ne-key_error path next (ok _, disk) c h =
      then_path-ne-key_error path (next disk) (h disk)
  download_next-ne-key_error path next (err key_error, disk) (inl e) h =
      absurd (let bad : ◌≡◌ {A = Result Unit} (err key_error) (ok tt) = e in cc)
  download_next-ne-key_error path next (err key_error, disk) (inr e) h =
      absurd (let bad : ◌≡◌ {A = Result Unit} (err key_error) (err os_error) = e in cc)
  download_next-ne-key_error path next (err _, disk) c h = λ e. cc

  no_key_error :
      (pkgs : List Text) (disk : Disk)
      → IsIndexed db pkgs
      → (download_all base_url outdir db pkgs disk).0 ≢ err key_error
  unfolding download_all
  no_key_error [] disk h = λ e. cc
  no_key_error (pkg ∷ pkgs) disk ((p, there), h) = rw there (
      download_next-ne-key_error (dest base_url outdir db p)
        (λ later. download_all base_url outdir db pkgs later) (provide base_url outdir db p disk)
        (provide_cases p disk) (λ later. no_key_error pkgs later h))

  resolve-IsIndexed :
      (roots : List Text) → (b : Bfs) × (resolve db roots ≡ some b) × IsIndexed db b.ordered
  resolve-IsIndexed roots =
      let (b, e, taken, told, distinct) = resolve-IsWanted db roots in
      (
        b,
        e,
        members-IsIndexed db b.ordered (λ pkg m. let w = (taken pkg).0 m in (w.entry, w.indexed)),
      )

  -- For every index, all roots and any disk, `resolve` returns a list of packages whose download never
  -- looks up a missing key, whatever the outcomes of the downloads.
  pub download_all-ne-key_error :
      (roots : List Text) (disk : Disk)
      → (b : Bfs) × (resolve db roots ≡ some b)
        × ((download_all base_url outdir db b.ordered disk).0 ≢ err key_error)
  download_all-ne-key_error roots disk =
      let (b, e, indexed) = resolve-IsIndexed roots in (b, e, no_key_error b.ordered disk indexed)

  -- If the directory can be made and no download fails, then for every index and all roots the download
  -- of what `resolve` returns returns the paths of the packages in the order of the list; each of these
  -- files exists then, and no file has gone.
  pub download_debs-resolve :
      (roots : List Text) (disk : Disk)
      → makedirs outdir disk.made ≡ ok tt
      → disk.retrievals ≡ []
      → (b : Bfs) × (disk' : Disk) × (resolve db roots ≡ some b)
        × (download_debs base_url outdir db b.ordered disk ≡ (ok (paths_of b.ordered), disk'))
        × All (λ path. member path disk'.files ≡ true) (paths_of b.ordered)
        × IsKept disk disk'
  unfolding download_debs
  download_debs-resolve roots disk made calm =
      let (b, e, indexed) = resolve-IsIndexed roots in
      let (disk', runs, there, kept) = download_calm b.ordered disk indexed calm in
      (b, disk', e, rw made runs, there, kept)

  -- A download that breaks off leaves its file: the run ends with OSError, and the next one takes the
  -- file for complete, downloads nothing and returns its path, for a package in the index whose file
  -- was not there before, and a directory that can be made or exists.
  pub download_debs-cut_short :
      (pkg : Text) (p : Package) (later : List Retrieval) (disk : Disk)
      → makedirs outdir disk.made ≡ ok tt
      → find db pkg ≡ some p
      → member (dest base_url outdir db p) disk.files ≡ false
      → disk.retrievals ≡ cut_short ∷ later
      → (disk' : Disk) × (download_debs base_url outdir db (pkg ∷ []) disk ≡ (err os_error, disk'))
        × (disk'.fetched ≡ disk.fetched)
        × (download_debs base_url outdir db (pkg ∷ []) disk'
            ≡ (ok (dest base_url outdir db p ∷ []), disk'))
  unfolding download_debs download_all
  download_debs-cut_short pkg p later disk made there absent broken =
      let path = dest base_url outdir db p in
      let disk' : Disk = record disk { files = path ∷ disk.files; retrievals = later } in
      let held : member path disk'.files ≡ true = ground (arith, (text_eq_iff path path).1) in
      (disk', rw (made, there, absent, broken) refl, refl, rw (made, there, held) refl)
