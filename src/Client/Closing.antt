-- ===== src/Client/Closing.antt =====
-- The connections that `close` of hiyori/http_client.py closes.
use hiyori.Prelude.{◌≡◌, inl, inr, refl, ap, ◌∙◌, true, Bool-cases, some, [], ◌∷◌, arith}
use mathlib.Core.List.{Memᴰ}
use mathlib.Core.List.Memᴰ
use hiyori.Messages.{HttpConnectionId}
use hiyori.Connection.Http.{HttpProtocol}
use hiyori.Connection.Object.{HttpConnection, close, wait_closed}
use hiyori.Client.Pool.{same_id, Conns, lookup, HttpClient, shut, close_all, close_client}
use hiyori.Client.Sharing.{same_id_iff, IsKeyed}

module _ {P H : Type 0} (http : HttpProtocol P H) where
  shut-closing : (conn : HttpConnection P) → (shut http conn).closing ≡ true
  unfolding shut close wait_closed
  shut-closing conn = ground arith

  lookup-close_all :
      (id : HttpConnectionId) (m : Conns P) (conn : HttpConnection P)
      → lookup id m ≡ some conn
      → Memᴰ (shut http conn) (close_all http m)
  unfolding lookup close_all
  lookup-close_all id [] conn h = cc
  lookup-close_all id ((k, other) ∷ m) conn h = elim (Bool-cases (same_id id k)) [
    | inl same ↦
        let found : conn ≡ other = ground arith in
        Memᴰ.append_right (close_all http m) (Memᴰ.head (ap (shut http) found))
    | inr differs ↦
        Memᴰ.append_left (shut http other ∷ []) (lookup-close_all id m conn (ground arith))
  ]

  close_all-lookup :
      (m : Conns P) (x : HttpConnection P)
      → IsKeyed m
      → Memᴰ x (close_all http m)
      → (conn : HttpConnection P) × (lookup conn.conn_id m ≡ some conn) × (x ≡ shut http conn)
  unfolding lookup close_all
  close_all-lookup [] x h found = absurd (Memᴰ.not-nil found)
  close_all-lookup ((k, conn) ∷ m) x (keyed, fresh, h) found =
      elim (Memᴰ.append_cases (close_all http m) found) [
        | inr last ↦ (conn, ground (arith, same_id_iff conn.conn_id k), Memᴰ.eq_of_singleton last)
        | inl earlier ↦
            let (other, there, e) = close_all-lookup m x h earlier in
            (other, ground (arith, same_id_iff other.conn_id k), e)
      ]

  -- From a pool keyed by the ids of its connections, `close` closes exactly the connections that the pool
  -- has under their ids, each is then closing, and the pool is empty.
  pub close_client-shut :
      (c : HttpClient P)
      → IsKeyed c.conns
      → ((id : HttpConnectionId) (conn : HttpConnection P)
          → lookup id c.conns ≡ some conn
          → Memᴰ (shut http conn) (close_client http c).0)
        × ((x : HttpConnection P)
            → Memᴰ x (close_client http c).0
            → (x.closing ≡ true)
              × ((conn : HttpConnection P) × (lookup conn.conn_id c.conns ≡ some conn)
                  × (x ≡ shut http conn)))
        × ((close_client http c).1.conns ≡ [])
  unfolding close_client
  close_client-shut c keyed = (
    λ id conn there. lookup-close_all id c.conns conn there,
    λ x found.
        let (conn, there, e) = close_all-lookup c.conns x keyed found in
        (ap (λ y. y.closing) e ∙ shut-closing conn, (conn, there, e)),
    refl,
  )
