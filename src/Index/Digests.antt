-- ===== src/Index/Digests.antt =====
-- The cached digests of internal/index/digest.go are those of the present index.
use source_controller.Common.{
  ◌≡◌, refl, String, Bool, true, Option, none, some, List, [], ◌∷◌, arith, String-discrete,
  Option-cases, inl, inr,
}
use source_controller.Common.GoMap
use source_controller.Common.GoMap.{GoMap}
use source_controller.Index.{
  Digester, reset, add, delete, string, sorted_keys, digest, verify, new_digester, with_index,
}

-- The methods that change a digester.
pub data Change : Type 0 where
  added : String → String → Change
  deleted : String → Change
  digested : String → Change

module _ (sort : List String → List String) (hash : String → String → String)
    (verified : String → String → Bool) where
  unfoldable pub change : Change → Digester → Digester
  change (added key value) i = add key value i
  change (deleted key) i = delete key i
  change (digested a) i = (digest sort hash verified a i).0

  unfoldable pub run : List Change → Digester → Digester
  unfolding change
  run [] i = i
  run (c ∷ cs) i = run cs (change c i)

  -- What is cached for an algorithm is its digest of a text.
  unfoldable pub AllDigests : String → GoMap String String → Type 0
  AllDigests s [] = Unit
  AllDigests s ((a, d) ∷ m) = (d ≡ hash a s) × AllDigests s m

  put-AllDigests :
      (s a : String) (m : GoMap String String)
      → AllDigests s m
      → AllDigests s (GoMap.put String-discrete a (hash a s) m)
  unfolding AllDigests GoMap.put
  put-AllDigests s a [] h = (refl, tt)
  put-AllDigests s a ((b, d) ∷ m) h = ground (arith, put-AllDigests s a m h.1, h.0, h.1)

  get-AllDigests :
      (s a d : String) (m : GoMap String String)
      → AllDigests s m
      → GoMap.get String-discrete a m ≡ some d
      → d ≡ hash a s
  unfolding AllDigests GoMap.get
  get-AllDigests s a d [] h e = absurd (ground arith)
  get-AllDigests s a d ((b, c) ∷ m) h e = ground (arith, get-AllDigests s a d m h.1, h.0, e)

  abbrev IsFresh : Digester → Type 0
  IsFresh i = AllDigests (string sort i) i.digests

  digest-IsFresh :
      (a : String) (i : Digester) → IsFresh i → IsFresh (digest sort hash verified a i).0
  unfolding digest string sorted_keys
  digest-IsFresh a i h = elim (Option-cases (GoMap.get String-discrete a i.digests)) [
    | inl e ↦ rw (e, digest) (put-AllDigests (string sort i) a i.digests h)
    | inr (d, e) ↦ rw (e, digest) h
  ]

  change-IsFresh : (c : Change) (i : Digester) → IsFresh i → IsFresh (change c i)
  unfolding change add delete reset AllDigests
  change-IsFresh (added key value) i h = tt
  change-IsFresh (deleted key) i h = elim (Option-cases (GoMap.get String-discrete key i.index)) [
    | inl e ↦ rw (e, delete) h
    | inr (v, e) ↦ rw (e, delete) tt
  ]
  change-IsFresh (digested a) i h = digest-IsFresh a i h

  run-IsFresh : (cs : List Change) (i : Digester) → IsFresh i → IsFresh (run cs i)
  unfolding run
  run-IsFresh [] i h = h
  run-IsFresh (c ∷ cs) i h = run-IsFresh cs (change c i) (change-IsFresh c i h)

  digest_fresh :
      (a : String) (i : Digester)
      → IsFresh i
      → (digest sort hash verified a i).1 ≡ hash a (string sort i)
  unfolding digest
  digest_fresh a i h = elim (Option-cases (GoMap.get String-discrete a i.digests)) [
    | inl e ↦ rw (e, digest) refl
    | inr (d, e) ↦ rw (e, digest) (get-AllDigests (string sort i) a d i.digests h e)
  ]

  abbrev start : Option (GoMap String String) → Digester
  start m = new_digester (with_index m ∷ [])

  start-IsFresh : (m : Option (GoMap String String)) → IsFresh (start m)
  unfolding new_digester with_index reset AllDigests
  start-IsFresh none = tt
  start-IsFresh (some m) = tt

  -- After any changes, calls of Digest among them, Digest answers the digest of the present text of
  -- the index, cached or not.
  pub digest-run :
      (m : Option (GoMap String String)) (cs : List Change) (a : String)
      → (digest sort hash verified a (run cs (new_digester (with_index m ∷ [])))).1
        ≡ hash a (string sort (run cs (new_digester (with_index m ∷ []))))
  digest-run m cs a = digest_fresh a (run cs (start m)) (run-IsFresh cs (start m) (start-IsFresh m))

  pub digest-index : (a : String) (i : Digester) → (digest sort hash verified a i).0.index ≡ i.index
  unfolding digest
  digest-index a i = elim (Option-cases (GoMap.get String-discrete a i.digests)) [
    | inl e ↦ rw (e, digest) refl
    | inr (d, e) ↦ rw (e, digest) refl
  ]

  -- Where the digest library's check accepts the digest of a text, Verify accepts what Digest has
  -- answered.
  pub verify-digest :
      ((a s : String) → verified (hash a s) s ≡ true)
      → (m : Option (GoMap String String)) (cs : List Change) (a : String)
      → let i = run cs (new_digester (with_index m ∷ [])) in
        verify sort hash verified
          (digest sort hash verified a i).1
          (digest sort hash verified a i).0
        ≡ true
  unfolding verify string sorted_keys
  verify-digest law m cs a =
      let i = run cs (start m) in rw (digest-run m cs a, digest-index a i) (law a (string sort i))
