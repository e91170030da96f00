-- ===== src/Net/TcpServer.antt =====
-- `tcp_server` of network/net/tcp_server.hpp: one accept at a time, each for a connection that is
-- made before. The acceptor and the sockets are effects; a connection is known by its id.
mod Tests
use network_core.Common.{
  ℕ, zero, suc, ◌+◌, ◌≡◌, refl, ap, ◌∙◌, Bool, true, false, Option, none, some, List, [], ◌∷◌, ◌++◌,
  if◌then◌else◌, ◌==◌, arith, Bool-cases, inl, inr,
}
use network_core.Net.IosPool.{IosPool, IosEffect, get_io_service, next_ios, start_pool, stop_pool}

pub record TcpServer : Type 0 where
  pub pool : IosPool
  pub has_router : Bool
  pub cur_conn_id : ℕ

pub data ServerEffect : Type 0 where
  -- async_accept for a connection on an io_service
  async_accept : ℕ → Option ℕ → ServerEffect
  on_connect : ℕ → ServerEffect
  start_connection : ℕ → ServerEffect
  ios_effect : IosEffect → ServerEffect

-- the id of the connection, its io_service, and the server
unfoldable pub create_connection : TcpServer → ℕ × Option ℕ × TcpServer
unfolding get_io_service
create_connection s =
    let (ios, pool) = get_io_service s.pool in
    (s.cur_conn_id + 1, ios, record s { cur_conn_id = s.cur_conn_id + 1; pool = pool })

unfoldable pub do_accept : TcpServer → TcpServer × List ServerEffect
unfolding create_connection
do_accept s = let (id, ios, s') = create_connection s in (s', async_accept id ios ∷ [])

-- the end of the accept for a connection
unfoldable pub handle_accept : ℕ → ℕ → TcpServer → TcpServer × List ServerEffect
unfolding do_accept
handle_accept error id s =
    let (s', effects) = do_accept s in
    (
      s',
      (if error == 0
            then (if s.has_router
                then on_connect id ∷ (start_connection id ∷ [])
                else start_connection id ∷ [])
            else [])
          ++ effects,
    )

unfoldable pub pool_effects : List IosEffect → List ServerEffect
pool_effects [] = []
pool_effects (e ∷ es) = ios_effect e ∷ pool_effects es

unfoldable pub start_server : TcpServer → TcpServer × List ServerEffect
unfolding do_accept start_pool pool_effects
start_server s =
    let (s', effects) = do_accept s in (s', effects ++ pool_effects (start_pool s'.pool))

unfoldable pub stop_server : TcpServer → List ServerEffect
unfolding stop_pool pool_effects
stop_server s = pool_effects (stop_pool s.pool)

-- accepts that end, one after the other, with these errors: the connection of each is the last
-- that was made
unfoldable pub run_accepts : List ℕ → TcpServer → List ServerEffect
unfolding handle_accept
run_accepts [] s = []
run_accepts (error ∷ errors) s =
    let (s', effects) = handle_accept error s.cur_conn_id s in effects ++ run_accepts errors s'

unfoldable pub started : List ServerEffect → List ℕ
started [] = []
started (start_connection id ∷ es) = id ∷ started es
started (_ ∷ es) = started es

-- the description: connections are numbered as they are accepted, and those without an error start
unfoldable pub accepted_ids : ℕ → List ℕ → List ℕ
accepted_ids id [] = []
accepted_ids id (error ∷ errors) =
    let rest = accepted_ids (id + 1) errors in if error == 0 then id ∷ rest else rest

started-append : (es fs : List ServerEffect) → started (es ++ fs) ≡ started es ++ started fs
unfolding started
started-append [] fs = refl
started-append (start_connection id ∷ es) fs = ap (◌∷◌ id) (started-append es fs)
started-append (_ ∷ es) fs = started-append es fs

started-handle_accept :
    (b c : Bool) (id : ℕ) (ios : Option ℕ) (rest : List ServerEffect)
    → started (
        ((if b
            then (if c
                then on_connect id ∷ (start_connection id ∷ [])
                else start_connection id ∷ [])
            else [])
          ++ (async_accept (id + 1) ios ∷ []))
        ++ rest)
      ≡ (if b then id ∷ started rest else started rest)
unfolding started
started-handle_accept true true id ios rest = refl
started-handle_accept true false id ios rest = refl
started-handle_accept false c id ios rest = refl

-- Whatever accepts fail, a connection whose accept succeeds is started, once, under its own id and
-- in the order of the accepts, and no other is.
pub run_accepts-started :
    (errors : List ℕ) (s : TcpServer)
    → started (run_accepts errors s) ≡ accepted_ids s.cur_conn_id errors
unfolding run_accepts accepted_ids handle_accept do_accept create_connection started
run_accepts-started [] s = refl
run_accepts-started (error ∷ errors) s =
    let s' = (handle_accept error s.cur_conn_id s).0 in
    started-handle_accept (error == 0) s.has_router s.cur_conn_id (get_io_service s.pool).0
      (run_accepts errors s')
    ∙ ap (λ l. if error == 0 then s.cur_conn_id ∷ l else l) (run_accepts-started errors s')
