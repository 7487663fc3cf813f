-- ===== src/Index/Refined.antt =====
-- The index of internal/index/digest.go as a function from keys to values.
use source_controller.Common.{
  ◌≡◌, ◌≢◌, refl, sym, ap, ◌∙◌, String, Bool, Option, none, some, List, [], ◌∷◌, is_some,
  if◌then◌else◌, decide, String-discrete, arith, Option-cases, inl, inr,
}
use source_controller.Common.GoMap
use source_controller.Common.GoMap.{GoMap}
use source_controller.Index.{Digester, reset, add, has, get, value_of}
use source_controller.Index.Content.{get-reset}
use source_controller.Index.Digests.{Change, run, change, added, deleted, digested, digest-index}

-- What a client sees of a digester: the value of each key, if there is one.
abbrev pub view : Digester → String → Option String
view i key = GoMap.get String-discrete key i.index

-- What Get answers for a key of a function: the empty string for a missing key.
abbrev pub value_or_empty : Option String → String
value_or_empty none = ""
value_or_empty (some v) = v

get-view : (q : String) (i : Digester) → get q i ≡ value_or_empty (view i q)
unfolding get value_of
get-view q i = elim (Option-cases (view i q)) [
  | inl e ↦ ground (arith, e)
  | inr (v, e) ↦ ground (arith, e)
]

-- The same calls on a function.
abbrev pub update : (String → Option String) → String → Option String → String → Option String
update f key value q = if decide (String-discrete key q) then value else f q

abbrev pub replay_change : Change → (String → Option String) → String → Option String
replay_change (added key value) f = update f key (some value)
replay_change (deleted key) f = update f key none
replay_change (digested a) f = f

abbrev pub replay : List Change → (String → Option String) → String → Option String
replay [] f = f
replay (c ∷ cs) f = replay cs (replay_change c f)

update_self :
    (f : String → Option String) (key q : String) (v : Option String)
    → key ≡ q
    → v ≡ update f key v q
update_self f key q v h = ground (arith, h)

update_ne :
    (f : String → Option String) (key q : String) (v : Option String)
    → key ≢ q
    → f q ≡ update f key v q
update_ne f key q v h = ground (arith, h)

module _ (sort : List String → List String) (hash : String → String → String)
    (verified : String → String → Bool) where
  change_refines :
      (c : Change) (i : Digester) (q : String)
      → view (change sort hash verified c i) q ≡ replay_change c (view i) q
  unfolding change add reset
  change_refines (added key value) i q = elim (String-discrete key q) [
    | yes p ↦
        ap (view (add key value i)) (sym p)
        ∙ GoMap.get-put_self String-discrete key value i.index
        ∙ update_self (view i) key q (some value) p
    | no n ↦
        GoMap.get-put_ne String-discrete key q value i.index n
        ∙ update_ne (view i) key q (some value) n
  ]
  change_refines (deleted key) i q = elim (String-discrete key q) [
    | yes p ↦
        get-reset key q i
        ∙ ap (λ x. GoMap.get String-discrete x (GoMap.delete String-discrete key i.index)) (sym p)
        ∙ GoMap.get-delete_self String-discrete key i.index
        ∙ update_self (view i) key q none p
    | no n ↦
        get-reset key q i
        ∙ GoMap.get-delete_ne String-discrete key q i.index n
        ∙ update_ne (view i) key q none n
  ]
  change_refines (digested a) i q =
      ap (GoMap.get String-discrete q) (digest-index sort hash verified a i)

  replay_ext :
      (cs : List Change) (f g : String → Option String)
      → ((q : String) → f q ≡ g q)
      → (q : String) → replay cs f q ≡ replay cs g q
  replay_ext [] f g h q = h q
  replay_ext (added key value ∷ cs) f g h q =
      replay_ext cs (update f key (some value)) (update g key (some value))
        (λ q. ap (λ v. if decide (String-discrete key q) then some value else v) (h q)) q
  replay_ext (deleted key ∷ cs) f g h q =
      replay_ext cs (update f key none) (update g key none)
        (λ q. ap (λ v. if decide (String-discrete key q) then none else v) (h q)) q
  replay_ext (digested a ∷ cs) f g h q = replay_ext cs f g h q

  -- Over any sequence of calls of Add, Delete and Digest the index is the map that the calls of Add
  -- and Delete describe: Get answers the value of a key in that map, and the empty string for a key
  -- that is not there, and Has answers whether the key is there. A digest changes nothing that they
  -- see.
  pub run_refines :
      (cs : List Change) (i : Digester) (q : String)
      → (get q (run sort hash verified cs i) ≡ value_or_empty (replay cs (view i) q))
        × (has q (run sort hash verified cs i) ≡ is_some (replay cs (view i) q))
        × (view (run sort hash verified cs i) q ≡ replay cs (view i) q)
  unfolding run has
  run_refines [] i q = (get-view q i, refl, refl)
  run_refines (c ∷ cs) i q =
      let rest = run_refines cs (change sort hash verified c i) q in
      let same =
        replay_ext cs (view (change sort hash verified c i)) (replay_change c (view i))
          (λ q. change_refines c i q) q in
      (rest.0 ∙ ap value_or_empty same, rest.1 ∙ ap is_some same, rest.2 ∙ same)
