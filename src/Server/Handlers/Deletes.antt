-- ===== src/Server/Handlers/Deletes.antt =====
-- A DELETE: upstream first, and then the cache.
use s3xc.Prelude.{◌<◌, ◌≡◌, refl, sym, ap, subst, some, Text, codes}
use s3xc.Io.{error, ok, err}
use s3xc.External.{Env, World}
use s3xc.External.Works.{EnvWorks}
use s3xc.External.Http.{Http, HttpWorks}
use s3xc.External.Http.Visible.{all_visible, all_visible-IsVisible}
use s3xc.Cache.Keys.{object_key}
use s3xc.Cache.Metadata.Types.{ObjectMetadata}
use s3xc.Cache.Metadata.Laws.{objects}
use s3xc.Cache.Coordinator.{CacheCoordinator}
use s3xc.Cache.Drop.{drop_cache_for_object}
use s3xc.Cache.Drop.Laws.{Drops, drop_cache-Drops}
use s3xc.Server.Outcome.{done, failed}
use s3xc.Server.Handlers.{Response, no_body, not_found_or_internal}
use s3xc.Server.Handlers.Change.{delete_object_handler}
use s3xc.Server.Handlers.Headers.{insert_text_lem}

module _ (http : Http) (hw : HttpWorks http) (env : Env) (works : EnvWorks env)
    (c : CacheCoordinator) (bucket key : Text) where
  -- The world when upstream has answered.
  abbrev pub after_delete : World env → World env
  after_delete w = record w { remote = (env.upstream.delete_object bucket key w.remote).1 }

  -- For a positive chunk size and an object that the database knows: if upstream deletes it, the
  -- answer is 204, and the object, its chunks and their files are dropped from the cache, other
  -- objects, their chunks and files staying as they are; if upstream reports an error, that is the answer, and the
  -- cache stays as it was.
  pub delete_object_handler-Drops :
      (w : World env) (m : ObjectMetadata)
      → 0 < c.chunk_size
      → objects env works w.db (object_key bucket key) ≡ ok (some m)
      → ((env.upstream.delete_object bucket key w.remote).0 ≡ ok tt
          → (answer : Response http) × ((delete_object_handler http env c bucket key w).0
              ≡ ok (done answer))
            × (answer.status ≡ 204)
            × Drops env works c
                (object_key bucket key)
                m.content_length
                (after_delete w)
                (ok tt, (delete_object_handler http env c bucket key w).1))
        × ((t : Text)
            → (env.upstream.delete_object bucket key w.remote).0 ≡ err (error t)
            → delete_object_handler http env c bucket key w
              ≡ (ok (failed (not_found_or_internal (error t))), after_delete w))
  unfolding delete_object_handler
  delete_object_handler-Drops w m pos known = (deleted, λ t refused. rw refused refl)
    where
      deleted :
          (env.upstream.delete_object bucket key w.remote).0 ≡ ok tt
          → (answer : Response http) × ((delete_object_handler http env c bucket key w).0
              ≡ ok (done answer))
            × (answer.status ≡ 204)
            × Drops env works c
                (object_key bucket key)
                m.content_length
                (after_delete w)
                (ok tt, (delete_object_handler http env c bucket key w).1)
      deleted gone =
          let (h, made, here, others) =
            insert_text_lem http hw (codes "content-length") (codes "0") http.no_headers
              (unfold all_visible in all_visible-IsVisible (codes "0") refl) in
          let drops = drop_cache-Drops env works c bucket key m (after_delete w) pos known in
          let state = (drop_cache_for_object env c bucket key (after_delete w)).1 in
          let run : delete_object_handler http env c bucket key w
              ≡ (ok (done (record { status = 204; headers = h; body = no_body })), state) =
            rw (gone, drops.returns, made) refl in
          (
            record { status = 204; headers = h; body = no_body },
            ap (λ r. r.0) run,
            refl,
            subst
                (λ r.
                  Drops env works c (object_key bucket key) m.content_length (after_delete w)
                    (ok tt, r.1))
                (sym run)
                (subst
                  (λ r.
                    Drops env works c (object_key bucket key) m.content_length (after_delete w)
                      (r, state))
                  drops.returns drops),
          )
