-- ===== src/Conditions/Example.antt =====
-- An object that consists of its conditions alone, to show that the laws of the conditions can hold.
use source_controller.Common.{
  String, ◌≡◌, refl, ◌≢◌, Option, none, some, List, [], ◌∷◌, arith, String-discrete, ite,
}
use source_controller.Conditions.{
  ConditionsApi, Condition, status_true, status_false, reconciling_condition, stalled_condition,
}

abbrev pub Listed : Type 0
Listed = List Condition

unfoldable pub get : Listed → String → Option Condition
get [] t = none
get (c ∷ o) t = ite (String-discrete c.type t) (some c) (get o t)

unfoldable pub delete : Listed → String → Listed
delete [] t = []
delete (c ∷ o) t = let rest = delete o t in ite (String-discrete c.type t) rest (c ∷ rest)

unfoldable pub set : Listed → Condition → Listed
set o c = c ∷ delete o c.type

get-delete_self : (o : Listed) (t : String) → get (delete o t) t ≡ none
unfolding get delete
get-delete_self [] t = refl
get-delete_self (c ∷ o) t = ground (arith, get-delete_self o t)

get-delete_ne : (o : Listed) (t q : String) → t ≢ q → get (delete o t) q ≡ get o q
unfolding get delete
get-delete_ne [] t q h = refl
get-delete_ne (c ∷ o) t q h = ground (arith, get-delete_ne o t q)

get-set_self : (o : Listed) (c : Condition) → get (set o c) c.type ≡ some c
unfolding get set
get-set_self o c = ground arith

get-set_ne : (o : Listed) (c : Condition) (t : String) → c.type ≢ t → get (set o c) t ≡ get o t
unfolding get set
get-set_ne o c t h = ground (arith, get-delete_ne o c.type t)

get_type : (o : Listed) (t : String) (c : Condition) → get o t ≡ some c → c.type ≡ t
unfolding get
get_type [] t c h = ground arith
get_type (d ∷ o) t c h = ground (arith, get_type o t c)

get_conditions-get : (o : Listed) (t : String) (c : Condition) → get o t ≡ some c → o ≢ []
unfolding get
get_conditions-get [] t c h = ground arith
get_conditions-get (d ∷ o) t c h = ground arith

get_conditions-none : (o : Listed) → ((t : String) → get o t ≡ none) → o ≡ []
unfolding get
get_conditions-none [] h = refl
get_conditions-none (c ∷ o) h = absurd (ground (arith, h c.type))

unfoldable pub api : ConditionsApi Listed
unfolding get set delete get-set_self get-set_ne get-delete_self get-delete_ne get_type
    get_conditions-get get_conditions-none
api = record {
  get = get;
  set = set;
  delete = delete;
  mark_true = λ o t r m. set o (record { type = t; status = status_true; reason = r; message = m });
  mark_false =
      λ o t r m. set o (record { type = t; status = status_false; reason = r; message = m });
  mark_stalled = λ o r m.
      set (delete o reconciling_condition)
        (record { type = stalled_condition; status = status_true; reason = r; message = m });
  get_conditions = λ o. o;
  get-set_self = get-set_self;
  get-set_ne = get-set_ne;
  get-delete_self = get-delete_self;
  get-delete_ne = get-delete_ne;
  mark_true_lem = λ o t r m. refl;
  mark_false_lem = λ o t r m. refl;
  mark_stalled_lem = λ o r m. refl;
  get_type = get_type;
  get_conditions-get = get_conditions-get;
  get_conditions-none = get_conditions-none;
}
