-- ===== src/Conditions.antt =====
-- The status conditions of an object, as the controllers use them through the packages
-- github.com/fluxcd/pkg/runtime/conditions and github.com/fluxcd/pkg/apis/meta. That code is not in
-- the repository: it is a parameter, with what its documentation says as laws.
pub mod Example
use source_controller.Common.{
  String, ◌≡◌, ◌≢◌, Bool, true, false, Option, none, some, List, [], ◌∷◌, String-discrete, decide,
}

pub data ConditionStatus : Type 0 where
  status_true status_false status_unknown : ConditionStatus

-- metav1.Condition, without the generation and the time that the packages fill in.
pub record Condition : Type 0 where
  pub type : String
  pub status : ConditionStatus
  pub reason : String
  pub message : String

-- The names of package meta.
abbrev pub ready_condition : String
ready_condition = "Ready"

abbrev pub reconciling_condition : String
reconciling_condition = "Reconciling"

abbrev pub stalled_condition : String
stalled_condition = "Stalled"

abbrev pub progressing_with_retry_reason : String
progressing_with_retry_reason = "ProgressingWithRetry"

abbrev pub is_status : ConditionStatus → ConditionStatus → Bool
is_status status_true status_true = true
is_status status_false status_false = true
is_status status_unknown status_unknown = true
is_status _ _ = false

-- A condition is there and has a status: the test of `IsTrue` and `IsFalse`.
abbrev pub has_status : ConditionStatus → Option Condition → Bool
has_status s none = false
has_status s (some c) = is_status s c.status

pub record ConditionsApi (Obj : Type 0) : Type 0 where
  pub get : Obj → String → Option Condition
  pub set : Obj → Condition → Obj
  pub delete : Obj → String → Obj
  pub mark_true : Obj → String → String → String → Obj
  pub mark_false : Obj → String → String → String → Obj
  pub mark_stalled : Obj → String → String → Obj
  -- obj.GetConditions()
  pub get_conditions : Obj → List Condition
  pub get-set_self : (o : Obj) (c : Condition) → get (set o c) c.type ≡ some c
  pub get-set_ne : (o : Obj) (c : Condition) (t : String) → c.type ≢ t → get (set o c) t ≡ get o t
  pub get-delete_self : (o : Obj) (t : String) → get (delete o t) t ≡ none
  pub get-delete_ne : (o : Obj) (t q : String) → t ≢ q → get (delete o t) q ≡ get o q
  pub mark_true_lem :
      (o : Obj) (t r m : String)
      → mark_true o t r m
        ≡ set o (record { type = t; status = status_true; reason = r; message = m })
  pub mark_false_lem :
      (o : Obj) (t r m : String)
      → mark_false o t r m
        ≡ set o (record { type = t; status = status_false; reason = r; message = m })
  -- An object that is stalled is not reconciling.
  pub mark_stalled_lem :
      (o : Obj) (r m : String)
      → mark_stalled o r m ≡ mark_true (delete o reconciling_condition) stalled_condition r m
  pub get_type : (o : Obj) (t : String) (c : Condition) → get o t ≡ some c → c.type ≡ t
  pub get_conditions-get :
      (o : Obj) (t : String) (c : Condition) → get o t ≡ some c → get_conditions o ≢ []
  pub get_conditions-none : (o : Obj) → ((t : String) → get o t ≡ none) → get_conditions o ≡ []
