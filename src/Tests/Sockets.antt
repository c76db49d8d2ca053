-- ===== src/Tests/Sockets.antt =====
-- src/socket.c and src/util.c at concrete inputs.
use mathlib.Core.Path.{subst}
use runes.Shared.{
  ap, sym, ◌⊎◌, ◌≡◌, refl, Bool, true, false, none, some, List, [], ◌∷◌, arith, if◌then◌else◌,
  Bool-cases, ◌||◌, inl, inr,
}
use runes.Shared.Text.{Bytes, codes, str_eq, str_eq_iff}
use runes.Sockets.Paths.{
  Made, made, exists, FileSystem, path_components, returns, mkdir_p, mkdir_loop,
}
use runes.Sockets.PathLaws.{There, MkdirLaws, Along, mkdir_p_twice}
use runes.Sockets.{
  Answers, unlink, socket, bind, chmod, listen, connect, opened, server_open, connected,
  client_open,
}

-- A file system is the list of its directories.
abbrev listed : List Bytes → Bytes → Bool
listed [] path = false
listed (dir ∷ dirs) path = str_eq dir path || listed dirs path

abbrev directories : FileSystem
directories = record {
  State = List Bytes;
  mkdir = λ dirs path. if listed dirs path then (dirs, exists) else (path ∷ dirs, made);
  stat_dir = λ dirs path. if listed dirs path then some true else none;
}

itself_listed : (path : Bytes) (dirs : List Bytes) → listed (path ∷ dirs) path ≡ true
itself_listed path dirs =
    let same : str_eq path path ≡ true = (str_eq_iff path path).1 refl in rw same refl

more_listed :
    (dir path : Bytes) (dirs : List Bytes)
    → listed dirs path ≡ true
    → listed (dir ∷ dirs) path ≡ true
more_listed dir path dirs h = ground arith

abbrev says : List Bytes → Bytes → List Bytes × Made
says dirs path = if listed dirs path then (dirs, exists) else (path ∷ dirs, made)

abbrev Finds : List Bytes → Bytes → Type 0
Finds dirs path = listed dirs path ≡ true

Finds-There : (dirs : List Bytes) (path : Bytes) → Finds dirs path → There directories dirs path
Finds-There dirs path h = rw h refl

There-Finds : (dirs : List Bytes) (path : Bytes) → There directories dirs path → Finds dirs path
There-Finds dirs path h = elim (Bool-cases (listed dirs path)) [
  | inl e ↦ e
  | inr e ↦ let other : made ≡ exists = ap (λ p. p.1) (rw e at h) in absurd (ground arith)
]

says_cases :
    (dirs dirs' : List Bytes) (path : Bytes) (said : Made)
    → says dirs path ≡ (dirs', said)
    → Finds dirs path × (dirs ≡ dirs') × (exists ≡ said) ⊎ (path ∷ dirs ≡ dirs') × (made ≡ said)
says_cases dirs dirs' path said h = elim (Bool-cases (listed dirs path)) [
  | inl e ↦
      let k : (dirs, exists) ≡ (dirs', said) = rw e at h in
      inl (e, ap (λ p. p.0) k, ap (λ p. p.1) k)
  | inr e ↦
      let k : (path ∷ dirs, made) ≡ (dirs', said) = rw e at h in
      inr (ap (λ p. p.0) k, ap (λ p. p.1) k)
]

made_found :
    (dirs dirs' : List Bytes) (path : Bytes)
    → says dirs path ≡ (dirs', made)
    → There directories dirs' path
made_found dirs dirs' path h = elim (says_cases dirs dirs' path made h) [
  | inl (found, same, other) ↦ absurd (ground arith)
  | inr (grown, same) ↦
      subst (λ d. There directories d path) grown
        (Finds-There (path ∷ dirs) path (itself_listed path dirs))
]

found_same :
    (dirs dirs' : List Bytes) (path : Bytes) → says dirs path ≡ (dirs', exists) → dirs' ≡ dirs
found_same dirs dirs' path h = elim (says_cases dirs dirs' path exists h) [
  | inl (found, same, other) ↦ sym same
  | inr (grown, other) ↦ absurd (ground arith)
]

found_stays :
    (dirs dirs' : List Bytes) (path other : Bytes) (said : Made)
    → There directories dirs path
    → says dirs other ≡ (dirs', said)
    → There directories dirs' path
found_stays dirs dirs' path other said there h = elim (says_cases dirs dirs' other said h) [
  | inl (found, same, what) ↦ subst (λ d. There directories d path) same there
  | inr (grown, what) ↦
      subst (λ d. There directories d path) grown
        (Finds-There (other ∷ dirs) path
          (more_listed other path dirs (There-Finds dirs path there)))
]

directories_laws : MkdirLaws directories
directories_laws = record {
  made-There = made_found;
  exists_same = found_same;
  There_stays = found_stays;
}

abbrev run_user : List Bytes
run_user = codes "/run/" ∷ []

abbrev with_runes : List Bytes
with_runes = codes "/run/me/runes/" ∷ codes "/run/me/" ∷ run_user

runes_made : mkdir_p directories (codes "/run/me/runes") run_user ≡ returns with_runes
unfolding mkdir_p mkdir_loop
runes_made = refl

mkdir_p_twice_example :
    Along directories with_runes (codes "/") (path_components (codes "/run/me/runes"))
    × (mkdir_p directories (codes "/run/me/runes") with_runes ≡ returns with_runes)
mkdir_p_twice_example =
    mkdir_p_twice directories directories_laws (codes "/run/me/runes") run_user with_runes
      runes_made

abbrev socket_name : Bytes
socket_name = codes "/run/me/runes/runesd"

abbrev all_works : Answers
all_works = record {
  makes_socket = true;
  binds = true;
  chmods = true;
  listens = true;
  connects = true;
}

daemon_opens :
    server_open directories 108 all_works socket_name run_user
    ≡ opened with_runes
        (unlink socket_name ∷ socket ∷ bind socket_name ∷ chmod socket_name 384 ∷ listen 5 ∷ [])
unfolding server_open mkdir_p mkdir_loop
daemon_opens = refl

client_connects :
    client_open 108 all_works socket_name ≡ connected (socket ∷ connect socket_name ∷ [])
unfolding client_open
client_connects = refl
