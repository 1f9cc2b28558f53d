-- ===== src/Shared/Params/Codec.antt =====
-- Parameters survive the wire: the field that the type selects is restored.
use onldaemons.Prelude.{
  ℕ, ◌^◌, ◌<◌, ◌≡◌, List, [], ◌∷◌, ◌++◌, map, All, ltb, ◌==◌, if◌then◌else◌, Bool, true, false,
  length, arith, append-nil, append_assoc, subst, sym, Bool-cases, inl, inr,
}
use onldaemons.Shared.ByteBuffer.{pure}
use onldaemons.Shared.ByteBuffer.Emit.{
  emit, emit-append, emit-nil, bytes16, bytes32, put16-emit, put32-emit,
}
use onldaemons.Shared.ByteBuffer.Holds.{
  Decodes, Decodes-bind, Decodes-map, Decodes-pure, get16-Decodes, get32-Decodes,
}
use onldaemons.Shared.ByteBuffer.Octets.{
  Octets, Octets-append, bytes16-Octets, bytes32-Octets, bytes8-Octets,
}
use onldaemons.Shared.NccpString.{
  bytes_string-Octets, IsNccpString, c_str, bytes_string, put_string-emit, get_string-Decodes,
}
use onldaemons.Shared.OnlTypes.Valid.{bytes_flag}
use onldaemons.Shared.OnlTypes.Codec.{put_flag-emit, get_flag-Decodes}
use onldaemons.Shared.Params.{
  Param, int_param, double_param, bool_param, string_param, new_param, put_value, put_param,
  put_each, put_params, get_value, get_param, get_each, get_params,
}

if-Octets : (t : Bool) (xs ys : List ℕ) → Octets xs → Octets ys → Octets (if t then xs else ys)
if-Octets true xs ys h k = h
if-Octets false xs ys h k = k

module _ {D : Type 0} where
  pub record IsParam (p : Param D) : Type 0 where
    pub known : p.pt < 5
    pub int_val : p.int_val < 2 ^ 32
    pub string_val : IsNccpString p.string_val

  -- What is sent behind the type.
  bytes_value : Param D → List ℕ
  bytes_value p =
      if p.pt == int_param
      then bytes32 p.int_val
      else if p.pt == double_param
      then bytes_string p.string_val
      else if p.pt == string_param
      then bytes_string p.string_val
      else if p.pt == bool_param
      then bytes_flag p.bool_val
      else []

  unfoldable pub bytes_param : Param D → List ℕ
  unfolding bytes_value
  bytes_param p = bytes16 p.pt ++ bytes_value p

  unfoldable pub bytes_each : List (Param D) → List ℕ
  bytes_each [] = []
  bytes_each (p ∷ ps) = bytes_param p ++ bytes_each ps

  unfoldable pub bytes_params : List (Param D) → List ℕ
  bytes_params ps = bytes32 (length ps) ++ bytes_each ps

  put_value-emit : (p : Param D) → put_value p ≡ emit (bytes_value p)
  unfolding put_value bytes_value
  put_value-emit p = elim (Bool-cases (p.pt == int_param)) [
    | inl e ↦ rw e (put32-emit _)
    | inr e ↦ rw e (elim (Bool-cases (p.pt == double_param)) [
      | inl f ↦ rw f (put_string-emit _)
      | inr f ↦ rw f (elim (Bool-cases (p.pt == string_param)) [
        | inl g ↦ rw g (put_string-emit _)
        | inr g ↦ rw g (elim (Bool-cases (p.pt == bool_param)) [
          | inl h ↦ rw h (put_flag-emit _)
          | inr h ↦ rw h emit-nil
        ])
      ])
    ])
  ]

  pub put_param-emit : (p : Param D) → put_param p ≡ emit (bytes_param p)
  unfolding put_param bytes_param
  put_param-emit p = simp (put16-emit, put_value-emit, emit-append)

  put_each-emit : (ps : List (Param D)) → put_each ps ≡ emit (bytes_each ps)
  unfolding put_each bytes_each
  put_each-emit [] = emit-nil
  put_each-emit (p ∷ ps) = simp (put_param-emit, put_each-emit ps, emit-append)

  pub put_params-emit : (ps : List (Param D)) → put_params ps ≡ emit (bytes_params ps)
  unfolding put_params bytes_params
  put_params-emit ps = simp (put32-emit, put_each-emit, emit-append)

  bytes_value-Octets : (p : Param D) → Octets (bytes_value p)
  unfolding bytes_value bytes_flag
  bytes_value-Octets p = if-Octets (p.pt == int_param) _ _ (bytes32-Octets p.int_val) (
      if-Octets (p.pt == double_param) _ _ (bytes_string-Octets p.string_val) (
        if-Octets (p.pt == string_param) _ _ (bytes_string-Octets p.string_val) (
          if-Octets (p.pt == bool_param) _ _
            (if-Octets p.bool_val _ _ (bytes8-Octets 1) (bytes8-Octets 0)) tt)))

  bytes_each-Octets : (ps : List (Param D)) → Octets (bytes_each ps)
  unfolding bytes_each bytes_param
  bytes_each-Octets [] = tt
  bytes_each-Octets (p ∷ ps) =
      Octets-append _ _ (Octets-append _ _ (bytes16-Octets p.pt) (bytes_value-Octets p))
        (bytes_each-Octets ps)

  pub bytes_params-Octets : (ps : List (Param D)) → Octets (bytes_params ps)
  unfolding bytes_params
  bytes_params-Octets ps = Octets-append _ _ (bytes32-Octets (length ps)) (bytes_each-Octets ps)

module _ {D : Type 0} (atof : List ℕ → D) where
  -- What the object `q` becomes when `p` is read into it: the type and the value it selects.
  unfoldable pub received : Param D → Param D → Param D
  received q p =
      if p.pt == int_param
      then record q { pt = p.pt; int_val = p.int_val }
      else if p.pt == double_param
      then record q {
        pt = p.pt;
        string_val = p.string_val;
        double_val = atof (c_str p.string_val.nccp_str);
      }
      else if p.pt == string_param
      then record q { pt = p.pt; string_val = p.string_val }
      else if p.pt == bool_param
      then record q { pt = p.pt; bool_val = p.bool_val }
      else record q { pt = p.pt }

  get_value-Decodes :
      (q p : Param D)
      → IsParam p
      → Decodes (get_value atof (record q { pt = p.pt })) (bytes_value p) (received q p)
  unfolding get_value bytes_value received
  get_value-Decodes q p w = elim (Bool-cases (p.pt == int_param)) [
    | inl e ↦ rw e (Decodes-map _ (get32-Decodes _ w.int_val))
    | inr e ↦ rw e (elim (Bool-cases (p.pt == double_param)) [
      | inl f ↦ rw f (Decodes-map _ (get_string-Decodes _ w.string_val))
      | inr f ↦ rw f (elim (Bool-cases (p.pt == string_param)) [
        | inl g ↦ rw g (Decodes-map _ (get_string-Decodes _ w.string_val))
        | inr g ↦ rw g (elim (Bool-cases (p.pt == bool_param)) [
          | inl h ↦ rw h (Decodes-map _ (get_flag-Decodes _))
          | inr h ↦ rw h (Decodes-pure _)
        ])
      ])
    ])
  ]

  pub get_param-Decodes :
      (q p : Param D) → IsParam p → Decodes (get_param atof q) (bytes_param p) (received q p)
  unfolding get_param bytes_param
  get_param-Decodes q p w =
      let e : (if ltb 4 p.pt then 0 else p.pt) ≡ p.pt = let k = w.known in ground arith in
      Decodes-bind _ (get16-Decodes _ (let k = w.known in omega arith))
        (rw e (get_value-Decodes q p w))

  get_each-Decodes :
      (zero_double : D) (ps plist : List (Param D))
      → All IsParam ps
      → Decodes
          (get_each atof zero_double (length ps) plist)
          (bytes_each ps)
          (plist ++ map (received (new_param zero_double)) ps)
  unfolding get_each bytes_each
  get_each-Decodes zero_double [] plist h =
      subst (Decodes (pure plist) []) (sym (append-nil plist)) (Decodes-pure plist)
  get_each-Decodes zero_double (p ∷ ps) plist h =
      let q = received (new_param zero_double) p in
      let rest = map (received (new_param zero_double)) ps in
      let longer = plist ++ (q ∷ []) in
      Decodes-bind _ (get_param-Decodes (new_param zero_double) p h.0) (
        subst (Decodes (get_each atof zero_double (length ps) longer) (bytes_each ps))
          (append_assoc plist (q ∷ []) rest) (get_each-Decodes zero_double ps longer h.1))

  pub get_params-Decodes :
      (zero_double : D) (ps plist : List (Param D))
      → length ps < 2 ^ 32
      → All IsParam ps
      → Decodes
          (get_params atof zero_double plist)
          (bytes_params ps)
          (plist ++ map (received (new_param zero_double)) ps)
  unfolding get_params bytes_params
  get_params-Decodes zero_double ps plist short h =
      Decodes-bind _ (get32-Decodes _ short) (get_each-Decodes zero_double ps plist h)
