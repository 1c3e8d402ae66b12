-- ===== src/Jobs/Table.antt =====
-- The DynamoDB table that the repositories call, which is not part of the repository: an interface
-- with the documented behaviour of consistent reads and of conditional writes.
use kosa_aws.Base.{Option, String, if◌then◌else◌, none, some, ℕ, ◌&&◌, ◌==◌, ◌≡◌}
use kosa_aws.Jobs.Item.{Item, stored_number}

-- The condition expressions of the job repository.
pub data Condition : Type 0 where
  -- attribute_not_exists(PK) AND attribute_not_exists(SK)
  absent : Condition
  -- #revision = :expected_revision
  revision_is : ℕ → Condition

-- A put is carried out, or its condition fails, or the provider raises another error.
pub data PutOutcome : Type 0 where
  written condition_failed provider_failed : PutOutcome

abbrev pub Holds : Condition → Option Item → Type 0
Holds absent old = old ≡ none
Holds (revision_is n) none = ⊥
Holds (revision_is n) (some item) = stored_number "revision" item ≡ some n

pub record DynamoTable : Type 1 where
  pub Table : Type 0
  -- What the table holds under a partition key and a sort key.
  pub stored : Table → String → String → Option Item
  -- A consistent read, `none` if the provider raises.
  pub get_item : Table → String → String → Option (Option Item)
  pub put_item : Table → String → String → Item → Condition → PutOutcome × Table
  pub get_item-stored :
      (t : Table) (pk sk : String) (o : Option Item)
      → get_item t pk sk ≡ some o
      → o ≡ stored t pk sk
  pub written_holds :
      (t : Table) (pk sk : String) (item : Item) (c : Condition)
      → (put_item t pk sk item c).0 ≡ written
      → Holds c (stored t pk sk)
  pub written_stored :
      (t : Table) (pk sk : String) (item : Item) (c : Condition)
      → (put_item t pk sk item c).0 ≡ written
      → (pk' sk' : String)
      → stored (put_item t pk sk item c).1 pk' sk'
        ≡ (if pk == pk' && sk == sk' then some item else stored t pk' sk')
  pub refused_keeps :
      (t : Table) (pk sk : String) (item : Item) (c : Condition)
      → (put_item t pk sk item c).0 ≡ condition_failed
      → (put_item t pk sk item c).1 ≡ t
