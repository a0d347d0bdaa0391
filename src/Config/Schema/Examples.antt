-- ===== src/Config/Schema/Examples.antt =====
-- The validator at one schema, of a backend, with whole numbers for the floating ones.
use haribon.Prelude.{ℕ, ◌≡◌, ◌↔◌, refl, String, true, false, [], ◌∷◌, pos, ℤ, ltb_ℤ, leb_ℤ, ◌&&◌}
use haribon.Config.Schema.{
  Floats, Json, Elems, Props, validate_node, missing_key, unknown_keys, below,
}
use haribon.Config.Schema.Keywords.{decode}
use haribon.Config.Schema.Conforms.{Conforms}
use haribon.Config.Schema.Decides.{validate_node-Conforms}

abbrev whole : Floats
whole = record {
  F = ℤ;
  of_int = λ z. z;
  zero_f = pos 0;
  eq_f = λ a b. leb_ℤ a b && leb_ℤ b a;
  lt_f = ltb_ℤ;
  integral = λ z. true;
}

abbrev itoa : ℕ → String
itoa n = "n"

abbrev weight_schema : Json whole
weight_schema =
    Json.obj
      (Props.prop "type" (Json.str "integer") (Props.prop "minimum" (Json.float (pos 2)) Props.end))

abbrev backend_keywords : Props whole
backend_keywords = Props.prop "type" (Json.str "object") (
    Props.prop "required" (Json.arr (Elems.elem (Json.str "host") Elems.nil)) (
      Props.prop "properties"
        (Json.obj (
          Props.prop "host" (Json.obj (Props.prop "type" (Json.str "string") Props.end))
            (Props.prop "weight" weight_schema Props.end)))
        (Props.prop "additionalProperties" (Json.bool false) Props.end)))

abbrev good : Json whole
good =
    Json.obj
      (Props.prop "host" (Json.str "http://a") (Props.prop "weight" (Json.int (pos 0)) Props.end))

abbrev bad : Json whole
bad =
    Json.obj
      (Props.prop "wieght" (Json.int (pos 3)) (Props.prop "weight" (Json.int (pos 1)) Props.end))

good_has_no_problem :
    validate_node whole itoa (λ l. l) (decode whole (Json.obj backend_keywords)) "" good ≡ []
unfolding validate_node decode
good_has_no_problem = refl

bad_has_three :
    validate_node whole itoa (λ l. l) (decode whole (Json.obj backend_keywords)) "" bad
    ≡ missing_key "(root)" "host"
      ∷ below "weight" (pos 1) (pos 2)
      ∷ unknown_keys "(root)" ("wieght" ∷ [])
      ∷ []
unfolding validate_node decode
bad_has_three = refl

validate_node-Conforms_example :
    (validate_node whole itoa (λ l. l) (decode whole (Json.obj backend_keywords)) "" good ≡ [])
    ↔ Conforms whole (decode whole (Json.obj backend_keywords)) good
validate_node-Conforms_example =
    validate_node-Conforms whole itoa (λ l. l) (decode whole (Json.obj backend_keywords)) "" good
