-- ===== src/Store/Exec.antt =====
-- Code that runs on a connection: it reads and writes the database and may fail; what was written
-- before a failure stays written, unless a transaction takes it back.
use ahl_mirror.Error.{MirrorResult, ok, err}
use ahl_mirror.Store.Schema.{Connection}

abbrev pub Exec {ℓ} : Type ℓ → Type ℓ
Exec A = Connection → MirrorResult A × Connection

module _ {ℓ} {A : Type ℓ} where
  abbrev pub pure : A → Exec A
  pure a c = (ok a, c)

  abbrev pub lift : MirrorResult A → Exec A
  lift r c = (r, c)

  -- A query: it writes nothing.
  abbrev pub query : (Connection → MirrorResult A) → Exec A
  query q c = (q c, c)

-- A statement that writes.
abbrev pub execute : (Connection → Connection) → Exec (Unit {0})
execute w c = (ok tt, w c)

module _ {ℓ κ} {A : Type ℓ} {B : Type κ} where
  abbrev pub continue : MirrorResult A → (A → Exec B) → Connection → MirrorResult B × Connection
  continue (ok a) f c = f a c
  continue (err e) f c = (err e, c)

  infixl 5 ◌>>=◌
  abbrev pub ◌>>=◌ : Exec A → (A → Exec B) → Exec B
  ◌>>=◌ m f c = continue (m c).0 f (m c).1

infixl 5 ◌>>◌
abbrev pub ◌>>◌ {ℓ} : {B : Type ℓ} → Exec (Unit {0}) → Exec B → Exec B
m >> k = m >>= λ _. k

module _ {ℓ} {A : Type ℓ} where
  -- `Store::with_transaction`: commit on `Ok`, roll back on `Err`.
  abbrev settle : MirrorResult A → (before after : Connection) → MirrorResult A × Connection
  settle (ok a) before after = (ok a, after)
  settle (err e) before after = (err e, before)

  unfoldable pub with_transaction : Exec A → Exec A
  with_transaction f c = settle (f c).0 c (f c).1
