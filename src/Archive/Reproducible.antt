-- ===== src/Archive/Reproducible.antt =====
-- The archive depends on content alone: `Archive` of internal/controller/storage.go.
use source_controller.Common.{
  ◌≡◌, refl, ap, ◌∙◌, String, Bool, true, ◌||◌, Option, some, List, [], ◌∷◌, arith, if◌then◌else◌,
}
use source_controller.Errors.{Err, Fallible, ok, fail}
use source_controller.Archive.{
  Header, Entry, is_executable, sanitize_header, archive_entry, archive_walk, write_header,
  write_named, write_content, then_walk,
}

-- What a header says about the content of a directory or a regular file.
abbrev pub SameHeader : Header → Header → Type 0
SameHeader h k =
    ((h.is_dir || h.is_regular) ≡ true)
    × (h.is_dir ≡ k.is_dir)
    × (h.is_regular ≡ k.is_regular)
    × (is_executable h ≡ is_executable k)
    × (h.size ≡ k.size)

abbrev pub SameHeaders : Fallible Header → Fallible Header → Type 0
SameHeaders (ok h) (ok k) = SameHeader h k
SameHeaders (fail e) (fail f) = e ≡ f
SameHeaders _ _ = ⊥

-- Two entries of walks that differ at most in owners, times and permissions of the group and others.
pub record SameEntry {Data : Type 0} (e f : Entry Data) : Type 0 where
  pub same_path : e.path ≡ f.path
  pub same_walk_err : e.walk_err ≡ f.walk_err
  pub same_is_regular : e.is_regular ≡ f.is_regular
  pub same_is_dir : e.is_dir ≡ f.is_dir
  pub same_headers : SameHeaders e.header f.header
  pub same_content : e.content ≡ f.content

abbrev pub SameWalk : {Data : Type 0} → List (Entry Data) → List (Entry Data) → Type 0
SameWalk [] [] = Unit
SameWalk (e ∷ es) (f ∷ fs) = SameEntry e f × SameWalk es fs
SameWalk _ _ = ⊥

-- A header that is written says nothing about the environment: its owner, group and times are
-- zero, its name is the path in the archive, and its mode is one of three.
pub sanitize_header-same :
    (p : String) (h k : Header) → SameHeader h k → sanitize_header p h ≡ sanitize_header p k
unfolding sanitize_header
sanitize_header-same p h k s = ground (arith, s.0, s.1, s.2, s.3, s.4)

module _ {Data : Type 0} (is_abs : String → Bool) (rel : String → String → Fallible String)
    (dir : String) (filter : Option (String → Bool → Bool)) where
  write_named-same :
      (is_regular : Bool) (content : Fallible Data) (h k : Header)
      → SameHeader h k
      → (name : Fallible String)
      → write_named is_abs rel dir filter is_regular content h name
        ≡ write_named is_abs rel dir filter is_regular content k name
  unfolding write_named
  write_named-same is_regular content h k s (fail e) = refl
  write_named-same is_regular content h k s (ok p) =
      ap (write_content is_abs rel dir filter is_regular content) (sanitize_header-same p h k s)

  write_header-same :
      (path : String) (is_regular : Bool) (content : Fallible Data) (h k : Fallible Header)
      → SameHeaders h k
      → write_header is_abs rel dir filter path is_regular content h
        ≡ write_header is_abs rel dir filter path is_regular content k
  unfolding write_header
  write_header-same path is_regular content (ok h) (ok k) s =
      write_named-same is_regular content h k s (if is_abs dir then rel dir path else ok path)
  write_header-same path is_regular content (fail e) (fail f) s = ap (λ x. ([], some x)) s
  write_header-same path is_regular content (ok h) (fail f) s = absurd s
  write_header-same path is_regular content (fail e) (ok k) s = absurd s

  archive_entry-same :
      (e f : Entry Data)
      → SameEntry e f
      → archive_entry is_abs rel dir filter e ≡ archive_entry is_abs rel dir filter f
  unfolding archive_entry
  archive_entry-same e f s =
      let as_entry =
        λ (path : String) (err : Option Err) (r d : Bool) (h : Fallible Header) (c : Fallible Data).
          archive_entry is_abs rel dir filter (record {
            path = path;
            walk_err = err;
            is_regular = r;
            is_dir = d;
            header = h;
            content = c;
          }) in
      ap (λ x. as_entry x e.walk_err e.is_regular e.is_dir e.header e.content) s.same_path
      ∙ ap (λ x. as_entry f.path x e.is_regular e.is_dir e.header e.content) s.same_walk_err
      ∙ ap (λ x. as_entry f.path f.walk_err x e.is_dir e.header e.content) s.same_is_regular
      ∙ ap (λ x. as_entry f.path f.walk_err f.is_regular x e.header e.content) s.same_is_dir
      ∙ ap (λ x. as_entry f.path f.walk_err f.is_regular f.is_dir e.header x) s.same_content
      ∙ ground
          (arith, write_header-same f.path f.is_regular f.content e.header f.header s.same_headers)

  -- Two walks over the same content give the same archive, member by member, and the same error.
  pub archive_walk-same :
      (es fs : List (Entry Data))
      → SameWalk es fs
      → archive_walk is_abs rel dir filter es ≡ archive_walk is_abs rel dir filter fs
  unfolding archive_walk
  archive_walk-same [] [] s = refl
  archive_walk-same [] (f ∷ fs) s = absurd s
  archive_walk-same (e ∷ es) [] s = absurd s
  archive_walk-same (e ∷ es) (f ∷ fs) s =
      ap (λ x. then_walk is_abs rel dir filter x (archive_walk is_abs rel dir filter es))
        (archive_entry-same e f s.0)
      ∙ ap (then_walk is_abs rel dir filter (archive_entry is_abs rel dir filter f))
          (archive_walk-same es fs s.1)
