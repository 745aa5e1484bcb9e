-- ===== src/Dynamo/Service.antt =====
-- What auth/storage/dynamodb/client.ts asks of DynamoDB: consistent reads, and writes that are made
-- if the condition of each holds, all or none. The service is a parameter of the models; its
-- documented behaviour is stated by the laws of `Service`.
pub mod Writes
use encore_mcp_base.Base.{
  ℕ, String, ◌≡◌, Bool, true, false, not, ◌&&◌, ◌||◌, Option, none, some, List, [], ◌∷◌, Thrown,
  other, ltb, leb, nat_eq, is_some, all, if◌then◌else◌,
}
use encore_mcp_base.Base.Dict.{lookup, set}
use encore_mcp_base.Dynamo.Items.{
  AttributeValue, string_value, number_value, boolean_value, string_set, Item, Key, same_key,
  key_item,
}

-- The condition expressions that the source writes.
pub data Condition : Type 0 where
  always : Condition
  attribute_exists attribute_not_exists : String → Condition
  exceeds at_most equal : String → ℕ → Condition
  both either : Condition → Condition → Condition

-- An attribute of an item that may not be there.
abbrev pub attribute : String → Option Item → Option AttributeValue
attribute name none = none
attribute name (some i) = lookup name i

-- A comparison fails where there is no number.
abbrev pub compares : (ℕ → Bool) → Option AttributeValue → Bool
compares test (some (number_value n)) = test n
compares test value = false

abbrev pub holds : Condition → Option Item → Bool
holds always i = true
holds (attribute_exists name) i = is_some (attribute name i)
holds (attribute_not_exists name) i = not (is_some (attribute name i))
holds (exceeds name bound) i = compares (λ n. ltb bound n) (attribute name i)
holds (at_most name bound) i = compares (λ n. leb n bound) (attribute name i)
holds (equal name value) i = compares (λ n. nat_eq n value) (attribute name i)
holds (both c d) i = holds c i && holds d i
holds (either c d) i = holds c i || holds d i

pub data Effect : Type 0 where
  put : Item → Effect
  -- `SET`, at the attributes in order
  assign : Item → Effect
  remove : Effect

pub record Write : Type 0 where
  pub key : Key
  pub condition : Condition
  pub effect : Effect

abbrev pub set_all : Item → Item → Item
set_all [] i = i
set_all ((name, value) ∷ more) i = set_all more (set name value i)

-- An update of an item that is not there makes one with the key alone first.
abbrev pub affected : Key → Effect → Option Item → Option Item
affected key (put i) old = some i
affected key (assign values) none = some (set_all values (key_item key))
affected key (assign values) (some i) = some (set_all values i)
affected key remove old = none

-- What stands at a key after writes.
abbrev pub written : List Write → Key → Option Item → Option Item
written [] key old = old
written (w ∷ ws) key old =
    written ws key (if same_key w.key key then affected key w.effect old else old)

-- A client at one table. A write that is refused is `DynamoDbConditionalCheckFailed`.
pub record Service : Type 1 where
  pub Table : Type 0
  pub get_item : Table → Key → Option Item
  pub write : Table → List Write → Option Table
  pub write_made :
      (t u : Table) (ws : List Write)
      → write t ws ≡ some u
      → (all (λ w. holds w.condition (get_item t w.key)) ws ≡ true)
        × ((key : Key) → get_item u key ≡ written ws key (get_item t key))
  pub write_refused :
      (t : Table) (ws : List Write)
      → write t ws ≡ none
      → all (λ w. holds w.condition (get_item t w.key)) ws ≡ false

abbrev pub conditional_check_failed : Thrown
conditional_check_failed = other "DynamoDB conditional check failed"
