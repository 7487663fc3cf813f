-- ===== src/Object/Example.antt =====
-- An object whose content is two maps of paths, to show that the laws of unstructured content can hold.
use source_controller.Common.{
  String, ◌≡◌, Bool, Option, none, some, List, arith, String-discrete, ite, ap, sym, ◌∙◌,
}
use source_controller.Common.Int.{pos}
use source_controller.Errors.{Fallible, ok, fail}
use source_controller.Object.{UnstructuredApi}

pub record Content : Type 0 where
  pub strings : List String → Option String
  pub bools : List String → Option Bool

pub path_discrete : Discrete (List String)
path_discrete = hlevel String-discrete

abbrev pub write {ℓ} :
    {B : Type ℓ} → (List String → Option B) → B → List String → List String → Option B
write f v p q = ite (path_discrete q p) (some v) (f q)

pub write_self {ℓ} :
    {B : Type ℓ} (f : List String → Option B) (v : B) (p : List String) → write f v p p ≡ some v
write_self f v p = ground arith

abbrev pub set_string : Content → String → List String → Content
set_string u v p = record u { strings = write u.strings v p }

abbrev pub set_bool : Content → Bool → List String → Content
set_bool u v p = record u { bools = write u.bools v p }

string_set :
    (u u' : Content) (v : String) (p : List String)
    → ok (set_string u v p) ≡ ok u'
    → ok (u'.strings p) ≡ ok (some v)
string_set u u' v p h =
    ap (λ (w : Fallible Content). elim w [ ok c ↦ ok (c.strings p) | fail e ↦ fail e ]) (sym h)
    ∙ ap ok (write_self u.strings v p)

bool_set :
    (u u' : Content) (v : Bool) (p : List String)
    → ok (set_bool u v p) ≡ ok u'
    → ok (u'.bools p) ≡ ok (some v)
bool_set u u' v p h =
    ap (λ (w : Fallible Content). elim w [ ok c ↦ ok (c.bools p) | fail e ↦ fail e ]) (sym h)
    ∙ ap ok (write_self u.bools v p)

unfoldable pub api : UnstructuredApi Content Content String
unfolding string_set bool_set
api = record {
  to_unstructured = λ o. ok o;
  from_unstructured = λ u o. ok u;
  nested_string = λ u p. ok (u.strings p);
  nested_int64 = λ u p. ok none;
  nested_bool = λ u p. ok (u.bools p);
  set_nested_string = λ u v p. ok (set_string u v p);
  set_nested_bool = λ u v p. ok (set_bool u v p);
  nested_artifact = λ u p. ok none;
  parse_duration = λ s. ok (pos 0);
  nested_string-set = string_set;
  nested_bool-set = bool_set;
  to_unstructured-from = λ u o o' h. sym h;
}

abbrev pub bare : Content
bare = record { strings = λ p. none; bools = λ p. none }
