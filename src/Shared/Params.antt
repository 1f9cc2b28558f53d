-- ===== src/Shared/Params.antt =====
-- shared/onl_types.cc, lines 426 to 607: configuration parameters. Floating-point numbers and `atof`
-- are the machine's: they are parameters of the model.
pub mod Codec
use onldaemons.Prelude.{
  ◌++◌, ℕ, zero, suc, Bool, true, false, List, [], ◌∷◌, ltb, ◌==◌, if◌then◌else◌, length,
}
use onldaemons.Prelude.Codes.{codes}
use onldaemons.Shared.ByteBuffer.{Buf, pure, ◌>>=◌, ◌>>◌, put16, put32, get16, get32}
use onldaemons.Shared.NccpString.{
  NccpString, c_str, of_c_string, copy_string, empty, get_string, put_string, get_string_from,
}
use onldaemons.Shared.OnlTypes.{put_flag, get_flag}

abbrev pub unknown_param : ℕ
unknown_param = 0

abbrev pub int_param : ℕ
int_param = 1

abbrev pub double_param : ℕ
double_param = 2

abbrev pub bool_param : ℕ
bool_param = 3

abbrev pub string_param : ℕ
string_param = 4

abbrev pub max_param_type : ℕ
max_param_type = string_param

pub record Param (D : Type 0) : Type 0 where
  pub pt : ℕ
  pub int_val : ℕ
  pub double_val : D
  pub bool_val : Bool
  pub string_val : NccpString

module _ {D : Type 0} where
  -- param(), with the number 0 of the machine
  pub new_param : D → Param D
  new_param zero_double = record {
    pt = string_param;
    int_val = 0;
    double_val = zero_double;
    bool_val = false;
    string_val = empty;
  }

  -- param(s)
  pub of_string : D → List ℕ → Param D
  of_string zero_double s = record {
    pt = string_param;
    int_val = 0;
    double_val = zero_double;
    bool_val = false;
    string_val = of_c_string s;
  }

  -- The value that follows the type; a type that is not known has none.
  put_value : Param D → Buf (Unit {0})
  put_value p =
      if p.pt == int_param
      then put32 p.int_val
      else if p.pt == double_param
      then put_string p.string_val
      else if p.pt == string_param
      then put_string p.string_val
      else if p.pt == bool_param
      then put_flag p.bool_val
      else pure tt

  pub put_param : Param D → Buf (Unit {0})
  unfolding put_value
  put_param p = do put16 p.pt; put_value p

  -- A list and a vector are sent alike.
  put_each : List (Param D) → Buf (Unit {0})
  put_each [] = pure tt
  put_each (p ∷ ps) = do put_param p; put_each ps

  pub put_params : List (Param D) → Buf (Unit {0})
  unfolding put_each
  put_params ps = do put32 (length ps); put_each ps

module _ {D : Type 0} (atof : List ℕ → D) where
  get_value : Param D → Buf (Param D)
  get_value p =
      if p.pt == int_param
      then (do v ← get32; pure (record p { int_val = v }))
      else if p.pt == double_param
      then (do
        s ← get_string_from
        pure (record p { string_val = s; double_val = atof (c_str s.nccp_str) }))
      else if p.pt == string_param
      then (do s ← get_string_from; pure (record p { string_val = s }))
      else if p.pt == bool_param
      then (do b ← get_flag; pure (record p { bool_val = b }))
      else pure p

  -- operator>> into the object `p`
  pub get_param : Param D → Buf (Param D)
  unfolding get_value
  get_param p = do
    pt ← get16
    get_value (record p { pt = if ltb max_param_type pt then unknown_param else pt })

  get_each : D → ℕ → List (Param D) → Buf (List (Param D))
  get_each zero_double zero plist = pure plist
  get_each zero_double (suc n) plist = do
    p ← get_param (new_param zero_double)
    get_each zero_double n (plist ++ (p ∷ []))

  -- The parameters are pushed behind those that the list has.
  pub get_params : D → List (Param D) → Buf (List (Param D))
  unfolding get_each
  get_params zero_double plist = do num_params ← get32; get_each zero_double num_params plist
