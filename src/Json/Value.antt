-- ===== src/Json/Value.antt =====
-- The values that encoding/json decodes a text to; `N` is the type of numbers.
use runner_controller_micros.Base.{String, Bool}

mutual
  pub data Json (N : Type 0) : Type 0 where
    null : Json N
    boolean : Bool → Json N
    number : N → Json N
    text : String → Json N
    array : Elements N → Json N
    object : Members N → Json N

  pub data Elements (N : Type 0) : Type 0 where
    nil : Elements N
    cons : Json N → Elements N → Elements N

  pub data Members (N : Type 0) : Type 0 where
    end : Members N
    member : String → Json N → Members N → Members N

-- What an `UnmarshalTypeError` calls the value.
abbrev pub kind : {N : Type 0} → Json N → String
kind null = "null"
kind (boolean b) = "bool"
kind (number x) = "number"
kind (text s) = "string"
kind (array xs) = "array"
kind (object ms) = "object"
