-- ===== src/Storage/Example.antt =====
-- A file system in which the laws of the storage's interface hold: a path has a file of one bit or
-- none, and there is one name for temporary files.
use source_controller.Common.{
  String, ◌≡◌, ◌≢◌, refl, sym, Bool, true, false, Option, none, some, arith, String-discrete,
  if◌then◌else◌, decide, ap, subst, ◌∙◌, Bool-cases, inl, inr,
}
use source_controller.Errors.{Err, Fallible, ok, fail, plain}
use source_controller.Storage.{StorageApi}
use source_controller.Storage.Verify.{DigestLaws}

abbrev pub Disk : Type 0
Disk = String → Option Bool

abbrev pub put : String → Option Bool → Disk → Disk
put p d disk = λ q. if decide (String-discrete q p) then d else disk q

-- The one temporary file, unless it is there or is what is asked for.
unfoldable pub created : String → Option Bool → Disk → Disk × Fallible String
created p none disk =
    if decide (String-discrete p "tmp")
    then (disk, fail (plain "create"))
    else (put "tmp" (some false) disk, ok "tmp")
created p (some d) disk = (disk, fail (plain "create"))

unfoldable pub renamed : String → String → Option Bool → Disk → Disk × Option Err
renamed s t none disk = (disk, some (plain "rename"))
renamed s t (some d) disk =
    if decide (String-discrete s t) then (disk, none) else (put t (some d) (put s none disk), none)

pub put_frame : (p q : String) (d : Option Bool) (disk : Disk) → q ≢ p → put p d disk q ≡ disk q
unfolding String-discrete
put_frame p q d disk n = ground (arith, n)

pub created_frame :
    (p q : String) (o : Option Bool) (disk disk' : Disk) (t : Fallible String)
    → created p o disk ≡ (disk', t)
    → ((t' : String) → t ≡ ok t' → q ≢ t')
    → disk' q ≡ disk q
unfolding created
created_frame p q none disk disk' t e h = elim (Bool-cases (decide (String-discrete p "tmp"))) [
  | inl d ↦
      let same_disk : disk ≡ disk' = ap (λ o. o.0) (rw d at e) in ap (λ f. f q) (sym same_disk)
  | inr d ↦
      let put_disk : put "tmp" (some false) disk ≡ disk' = ap (λ o. o.0) (rw d at e) in
      let name : ok "tmp" ≡ t = ap (λ o. o.1) (rw d at e) in
      ap (λ f. f q) (sym put_disk) ∙ put_frame "tmp" q (some false) disk (h "tmp" (sym name))
]
created_frame p q (some d) disk disk' t e h = ap (λ o. o.0 q) (sym e)

pub created_new :
    (p t : String) (o : Option Bool) (disk disk' : Disk)
    → disk "tmp" ≡ o
    → created p o disk ≡ (disk', ok t)
    → (disk t ≡ none) × (t ≢ p)
unfolding created
created_new p t none disk disk' n e = elim (Bool-cases (decide (String-discrete p "tmp"))) [
  | inl d ↦ absurd (ground (arith, ap (λ o. o.1) (rw d at e)))
  | inr d ↦
      let name : ◌≡◌ {A = Fallible String} (ok "tmp") (ok t) = ap (λ o. o.1) (rw d at e) in
      let name' : "tmp" ≡ t = ground (arith, name) in
      (subst (λ x. disk x ≡ none) name' n, λ u. ground (arith, d, u, name'))
]
created_new p t (some d) disk disk' n e = absurd (ground (arith, ap (λ o. o.1) e))

pub renamed_frame :
    (s t q : String) (o : Option Bool) (disk : Disk)
    → q ≢ s
    → q ≢ t
    → (renamed s t o disk).0 q ≡ disk q
unfolding renamed
renamed_frame s t q none disk ns nt = refl
renamed_frame s t q (some d) disk ns nt = elim (Bool-cases (decide (String-discrete s t))) [
  | inl e ↦ rw e refl
  | inr e ↦ rw e (put_frame t q (some d) (put s none disk) nt ∙ put_frame s q none disk ns)
]

pub renamed_failed :
    (s t : String) (o : Option Bool) (disk disk' : Disk) (x : Err)
    → renamed s t o disk ≡ (disk', some x)
    → disk' t ≡ disk t
unfolding renamed
renamed_failed s t none disk disk' x e = ap (λ o. o.0 t) (sym e)
renamed_failed s t (some d) disk disk' x e = elim (Bool-cases (decide (String-discrete s t))) [
  | inl y ↦ absurd (ground (arith, ap (λ o. o.1) (rw y at e)))
  | inr y ↦ absurd (ground (arith, ap (λ o. o.1) (rw y at e)))
]

put_self : (p : String) (d : Option Bool) (disk : Disk) → put p d disk p ≡ d
put_self p d disk = ground arith

pub renamed_done :
    (s t : String) (o : Option Bool) (disk disk' : Disk)
    → disk s ≡ o
    → renamed s t o disk ≡ (disk', none)
    → disk' t ≡ disk s
unfolding renamed
renamed_done s t none disk disk' h e = absurd (ground (arith, ap (λ o. o.1) e))
renamed_done s t (some d) disk disk' h e = elim (Bool-cases (decide (String-discrete s t))) [
  | inl y ↦
      let same_path : s ≡ t = ground (arith, y) in
      let same_disk : disk ≡ disk' = ap (λ o. o.0) (rw y at e) in
      ap (λ f. f t) (sym same_disk) ∙ ap disk (sym same_path)
  | inr y ↦
      let put_disk : put t (some d) (put s none disk) ≡ disk' = ap (λ o. o.0) (rw y at e) in
      ap (λ f. f t) (sym put_disk) ∙ put_self t (some d) (put s none disk) ∙ sym h
]

-- A copy of the bit that is read, or of a reader that fails.
unfoldable pub copied : String → Option Bool → Disk → Disk × Fallible Bool
copied t none disk = (disk, fail (plain "copy"))
copied t (some d) disk = (put t (some d) disk, ok d)

pub copied_frame :
    (t q : String) (r : Option Bool) (disk : Disk) → q ≢ t → (copied t r disk).0 q ≡ disk q
unfolding copied
copied_frame t q none disk n = refl
copied_frame t q (some d) disk n = put_frame t q (some d) disk n

pub copied_read :
    (t : String) (r : Option Bool) (d : Bool) (disk disk' : Disk)
    → copied t r disk ≡ (disk', ok d)
    → disk' t ≡ some d
unfolding copied
copied_read t none d disk disk' e = absurd (ground (arith, ap (λ o. o.1) e))
copied_read t (some r) d disk disk' e =
    let same_disk : put t (some r) disk ≡ disk' = ap (λ o. o.0) e in
    let answer : ◌≡◌ {A = Fallible Bool} (ok r) (ok d) = ap (λ o. o.1) e in
    let same_data : r ≡ d = ground (arith, answer) in
    ap (λ f. f t) (sym same_disk) ∙ put_self t (some r) disk ∙ ap some same_data

pub removed_read :
    (t : String) (disk disk' : Disk)
    → ◌≡◌ {A = Disk × Option Err} (put t none disk, none) (disk', none)
    → disk' t ≡ none
removed_read t disk disk' e =
    let same_disk : put t none disk ≡ disk' = ap (λ o. o.0) e in
    ap (λ f. f t) (sym same_disk) ∙ put_self t none disk

-- The digests of the two contents, and the check against them.
abbrev pub digest_of : Bool → String
digest_of true = "sha256:1"
digest_of false = "sha256:0"

abbrev pub open_disk : Option Bool → Fallible (Option Bool)
open_disk none = fail (plain "open")
open_disk (some d) = ok (some d)

abbrev pub read_disk : Option Bool → Fallible Bool
read_disk none = fail (plain "read")
read_disk (some d) = ok d

pub read_opened :
    (o r : Option Bool) (d d' : Bool)
    → open_disk o ≡ ok r
    → read_disk r ≡ ok d
    → o ≡ some d'
    → d ≡ d'
read_opened o r d d' p q e = ground (arith, p, q, e)

unfoldable pub disk_api : StorageApi Disk Bool (Option Bool)
disk_api = record {
  read = λ disk p. disk p;
  create_temp = λ p disk. created p (disk "tmp") disk;
  copy_into = λ t r disk. copied t r disk;
  close = λ t disk. (disk, none);
  chmod = λ t mode disk. (disk, none);
  rename_with_fallback = λ s t disk. renamed s t (disk s) disk;
  remove = λ t disk. (put t none disk, none);
  open_file = λ p disk. open_disk (disk p);
  close_reader = λ r. none;
  read_all = read_disk;
  secure_join = λ base p. ok p;
  digest = digest_of;
  size = λ d. 1;
  parse_digest = λ s. none;
  verify = λ s d. decide (String-discrete s (digest_of d));
  create_temp_frame = λ p q fs fs' t. created_frame p q (fs "tmp") fs fs' t;
  create_temp_new = λ p t fs fs'. created_new p t (fs "tmp") fs fs' refl;
  copy_into_frame = λ t q r fs n. copied_frame t q r fs n;
  copy_into_read = λ t r d fs fs' e. copied_read t r d fs fs' e;
  close_frame = λ t q fs. refl;
  chmod_frame = λ t q mode fs. refl;
  rename_frame = λ s t q fs ns nt. renamed_frame s t q (fs s) fs ns nt;
  rename_failed = λ s t fs fs' e. renamed_failed s t (fs s) fs fs' e;
  rename_done = λ s t fs fs'. renamed_done s t (fs s) fs fs' refl;
  read_all-open_file = λ p r d d' fs. read_opened (fs p) r d d';
  remove_frame = λ t q fs n. put_frame t q none fs n;
  remove_done = λ t fs fs' e. removed_read t fs fs' e;
}

pub digests : DigestLaws disk_api
unfolding String-discrete disk_api
digests = record {
  digest_non_empty = λ d. non_empty d;
  digest_parses = λ d. refl;
  digest_verifies = λ d. verifies d;
}
  where
    non_empty : (d : Bool) → digest_of d ≢ ""
    non_empty true = λ e. absurd (ground (arith, ap (λ x. decide (String-discrete x "")) e))
    non_empty false = λ e. absurd (ground (arith, ap (λ x. decide (String-discrete x "")) e))

    verifies : (d : Bool) → decide (String-discrete (digest_of d) (digest_of d)) ≡ true
    verifies true = refl
    verifies false = refl
