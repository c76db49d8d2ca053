-- ===== src/Sockets/PathLaws.antt =====
-- What `runes_mkdir_p` of src/util.c leaves behind.
use mathlib.Core.Path.{subst}
use runes.Shared.{
  ◌≡◌, refl, sym, ◌∙◌, ap, true, none, some, Option, Bool, false, List, [], ◌∷◌, arith,
}
use runes.Shared.Text.{Bytes, codes}
use runes.Sockets.Paths.{
  Made, made, exists, refused, FileSystem, path_components, returns, checked, longer, after_mkdir,
  mkdir_loop, mkdir_p,
}

module _ (fs : FileSystem) where
  open fs use {State, mkdir, stat_dir}

  -- Something is at a path: mkdir says so, and changes nothing.
  abbrev pub There : State → Bytes → Type 0
  There s path = mkdir s path ≡ (s, exists)

  -- Of mkdir: what it made is there, what is there stays, and it changes nothing where it finds
  -- something.
  pub record MkdirLaws : Type 0 where
    pub made-There : (s s' : State) (path : Bytes) → mkdir s path ≡ (s', made) → There s' path
    pub exists_same : (s s' : State) (path : Bytes) → mkdir s path ≡ (s', exists) → s' ≡ s
    pub There_stays :
        (s s' : State) (path other : Bytes) (said : Made)
        → There s path
        → mkdir s other ≡ (s', said)
        → There s' path

  -- Each part of a path is there, and the whole of it is a directory.
  abbrev pub Along : State → Bytes → List Bytes → Type 0
  Along s partial_path [] = stat_dir s partial_path ≡ some true
  Along s partial_path (part ∷ parts) =
      There s (longer fs partial_path part) × Along s (longer fs partial_path part) parts

  Along-returns :
      (partial_path : Bytes) (parts : List Bytes) (s : State)
      → Along s partial_path parts
      → mkdir_loop fs partial_path parts s ≡ returns s
  unfolding mkdir_loop
  Along-returns partial_path [] s h = ap (checked fs s) h
  Along-returns partial_path (part ∷ parts) s (there, along) =
      ap (after_mkdir fs (mkdir_loop fs (longer fs partial_path part) parts)) there
      ∙ Along-returns (longer fs partial_path part) parts s along

  checked_returns :
      (s s' : State) (said : Option Bool)
      → checked fs s said ≡ returns s'
      → (s ≡ s') × (said ≡ some true)
  checked_returns s s' (some true) h = let same : s ≡ s' = cc in (same, refl)
  checked_returns s s' (some false) h = absurd (ground arith)
  checked_returns s s' none h = absurd (ground arith)

  -- All that was there stays.
  abbrev Grows : State → State → Type 0
  Grows s s' = (path : Bytes) → There s path → There s' path

  module _ (laws : MkdirLaws) where
    abbrev Leaves : State → State → Bytes → List Bytes → Type 0
    Leaves s s' partial_path parts = Along s' partial_path parts × Grows s s'

    found-There : (s s1 : State) (path : Bytes) → mkdir s path ≡ (s1, exists) → There s1 path
    found-There s s1 path h =
        let same = laws.exists_same s s1 path h in
        subst (λ z. There z path) (sym same) (h ∙ ap (λ z. (z, exists)) same)

    -- One round of the loop, by what holds of the rest of it.
    round-Leaves :
        (partial_path part : Bytes) (parts : List Bytes) (s s' : State) (r : State × Made)
        → ((s1 : State)
            → mkdir_loop fs (longer fs partial_path part) parts s1 ≡ returns s'
            → Leaves s1 s' (longer fs partial_path part) parts)
        → mkdir s (longer fs partial_path part) ≡ r
        → after_mkdir fs (mkdir_loop fs (longer fs partial_path part) parts) r ≡ returns s'
        → Leaves s s' partial_path (part ∷ parts)
    round-Leaves partial_path part parts s s' (s1, made) rest e h =
        let path = longer fs partial_path part in
        let (along, grows) = rest s1 h in
        (
          (grows path (laws.made-There s s1 path e), along),
          λ other there. grows other (laws.There_stays s s1 other path made there e),
        )
    round-Leaves partial_path part parts s s' (s1, exists) rest e h =
        let path = longer fs partial_path part in
        let (along, grows) = rest s1 h in
        (
          (grows path (found-There s s1 path e), along),
          λ other there. grows other (laws.There_stays s s1 other path exists there e),
        )
    round-Leaves partial_path part parts s s' (s1, refused) rest e h = absurd (ground arith)

    loop-Leaves :
        (partial_path : Bytes) (parts : List Bytes) (s s' : State)
        → mkdir_loop fs partial_path parts s ≡ returns s'
        → Leaves s s' partial_path parts
    unfolding mkdir_loop
    loop-Leaves partial_path [] s s' h =
        let (same, is_dir) = checked_returns s s' (stat_dir s partial_path) h in
        (
          subst (λ z. stat_dir z partial_path ≡ some true) same is_dir,
          λ path there. subst (λ z. There z path) same there,
        )
    loop-Leaves partial_path (part ∷ parts) s s' h =
        round-Leaves partial_path part parts s s' (mkdir s (longer fs partial_path part))
          (λ s1 k. loop-Leaves (longer fs partial_path part) parts s1 s' k) refl h

    -- If a directory can be made, each part of its path is there after it and the whole is a directory,
    -- and to make it again changes nothing. What is asked of mkdir: what it made is there, what is
    -- there stays, and it changes nothing where it finds something.
    pub mkdir_p_twice :
        (dir : Bytes) (s s' : State)
        → mkdir_p fs dir s ≡ returns s'
        → Along s' (codes "/") (path_components dir) × (mkdir_p fs dir s' ≡ returns s')
    unfolding mkdir_p
    mkdir_p_twice dir s s' h =
        let (along, grows) = loop-Leaves (codes "/") (path_components dir) s s' h in
        (along, Along-returns (codes "/") (path_components dir) s' along)
