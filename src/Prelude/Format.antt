-- ===== src/Prelude/Format.antt =====
-- Error texts as `format!` builds them: literals, numbers, byte strings, one after another.
use Prim.Native.Nat.{ℕ}
use Prim.Native.String.{String}
use mathlib.Core.List.{List}
use mathlib.Core.Option.{Option, none, some}

pub data Message : Type 0 where
  text : String → Message
  shown : ℕ → Message
  quoted : List ℕ → Message
  joined : Message → Message → Message

infixr 60 ◌<>◌
abbrev pub ◌<>◌ : Message → Message → Message
a <> b = joined a b

-- An error text that may be the empty string, `none`.
abbrev pub shown_error : Option Message → Message
shown_error none = text ""
shown_error (some m) = m
