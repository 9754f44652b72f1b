-- ===== src/Base/JsonTree.antt =====
-- JSON values, in place of their text: the tree that package encoding/json writes and reads.
use mathlib.Core.Bool.{Bool}
use pulsar_app.Base.Int.{ℤ}
use pulsar_app.Base.Strings.{Str}

mutual
  pub data Json : Type 0 where
    null : Json
    bool : Bool → Json
    num : ℤ → Json
    str : Str → Json
    arr : Items → Json
    obj : Fields → Json

  pub data Items : Type 0 where
    no_items : Items
    item : Json → Items → Items

  pub data Fields : Type 0 where
    no_fields : Fields
    field : Str → Json → Fields → Fields
