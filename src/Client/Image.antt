-- ===== src/Client/Image.antt =====
-- src/hb_beamr.erl: `serialize` and `deserialize`.
pub mod Laws
use hyper_beam.Common.{ℕ, Bytes, ℤ, pos}
use hyper_beam.Messages.Terms.{ErlTerm, int, binary}
use hyper_beam.Client.Session.{System, Action, ◌>>=◌, ◌>>◌, pure, raise}
use hyper_beam.Client.Io
use hyper_beam.Client.Io.{Answer, ok, error}
use hyper_beam.Client.Allocate.{signed}

module _ (sys : System) where
  -- The match with `{ok, Mem}`; `byte_size` wants a binary.
  unfoldable pub image : Answer ErlTerm → Action Bytes
  image (ok (binary bytes)) = pure bytes
  image _ = raise

  unfoldable pub read_all : ErlTerm → Action Bytes
  unfolding Io.read image signed
  read_all (int w) = Io.read sys (pos 0) (signed w) >>= image
  read_all _ = raise

  unfoldable pub serialize : Action Bytes
  unfolding Io.size read_all
  serialize = Io.size sys >>= read_all

  -- The result of the write is dropped.
  unfoldable pub deserialize : Bytes → Action (Unit {0})
  unfolding Io.write
  deserialize bytes = Io.write sys (pos 0) bytes >> pure tt
