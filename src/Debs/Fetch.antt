-- ===== src/Debs/Fetch.antt =====
-- `download_debs` and `main` of scripts/fetch_debs.py, over the files of the directory and the outcomes
-- of the downloads.
use embeded_convey_belt.Prelude.{Option, none, some, List, [], ◌∷◌, ◌++◌, if◌then◌else◌}
use mathlib.Core.List.{reverse}
use embeded_convey_belt.Py.{Result, ok, err, os_error, key_error, Text}
use embeded_convey_belt.Py.Str.{text_eq, before}
use embeded_convey_belt.Debs.{Package, Index, find, member}

-- What `urlretrieve` does: it completes the file, fails before it is made, or breaks off and leaves a
-- part of it.
pub data Retrieval : Type 0 where
  complete refused cut_short : Retrieval

-- The paths that exist, the outcomes of the next downloads (those behind the list complete), what making
-- the output directory comes to, and what was downloaded, with its path.
pub record Disk : Type 0 where
  pub files : List Text
  pub retrievals : List Retrieval
  pub made : Result (Unit {0})
  pub fetched : List (Text × Text)

abbrev pub retrieve_as : List Retrieval → Text → Text → Disk → Result (Unit {0}) × Disk
retrieve_as [] url dest disk =
    (ok tt, record disk { files = dest ∷ disk.files; fetched = disk.fetched ++ (url, dest) ∷ [] })
retrieve_as (complete ∷ later) url dest disk = (
  ok tt,
  record disk {
    files = dest ∷ disk.files;
    retrievals = later;
    fetched = disk.fetched ++ (url, dest) ∷ [];
  },
)
retrieve_as (refused ∷ later) url dest disk = (err os_error, record disk { retrievals = later })
retrieve_as (cut_short ∷ later) url dest disk =
    (err os_error, record disk { files = dest ∷ disk.files; retrievals = later })

-- os.makedirs(outdir, exist_ok=True); an empty path is a FileNotFoundError.
abbrev pub makedirs : Text → Result (Unit {0}) → Result (Unit {0})
makedirs [] made = err os_error
makedirs (c ∷ cs) made = made

-- os.path.basename
abbrev pub basename : Text → Text
basename path = reverse (before b'/' (reverse path))

-- os.path.join(outdir, name), where `name` has no `/`
abbrev pub joined : Text → Text → Text
joined outdir name =
    if text_eq outdir []
    then name
    else if text_eq (before b'/' (reverse outdir)) []
    then outdir ++ name
    else outdir ++ b'/' ∷ name

module _ (base_url outdir : Text) (db : Index) where
  abbrev pub dest : Package → Text
  dest p = joined outdir (basename p.filename)

  -- A file that exists is not downloaded again.
  abbrev pub provide : Package → Disk → Result (Unit {0}) × Disk
  provide p disk =
      if member (dest p) disk.files
      then (ok tt, disk)
      else retrieve_as disk.retrievals (base_url ++ p.filename) (dest p) disk

  abbrev pub then_path : Text → Result (List Text) × Disk → Result (List Text) × Disk
  then_path path (ok paths, disk) = (ok (path ∷ paths), disk)
  then_path path (err e, disk) = (err e, disk)

  abbrev pub download_next :
      Text
      → (Disk → Result (List Text) × Disk)
      → Result (Unit {0}) × Disk
      → Result (List Text) × Disk
  download_next path next (ok _, disk) = then_path path (next disk)
  download_next path next (err e, disk) = (err e, disk)

  abbrev pub download_entry :
      Option Package → (Disk → Result (List Text) × Disk) → Disk → Result (List Text) × Disk
  download_entry none next disk = (err key_error, disk)
  download_entry (some p) next disk = download_next (dest p) next (provide p disk)

  -- The loop of `download_debs`.
  unfoldable pub download_all : List Text → Disk → Result (List Text) × Disk
  download_all [] disk = (ok [], disk)
  download_all (pkg ∷ pkgs) disk =
      download_entry (find db pkg) (λ later. download_all pkgs later) disk

  abbrev pub download_into : List Text → Disk → Result (Unit {0}) → Result (List Text) × Disk
  download_into pkgs disk (ok _) = download_all pkgs disk
  download_into pkgs disk (err e) = (err e, disk)

  unfoldable pub download_debs : List Text → Disk → Result (List Text) × Disk
  download_debs pkgs disk = download_into pkgs disk (makedirs outdir disk.made)
