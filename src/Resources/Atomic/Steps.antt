-- ===== src/Resources/Atomic/Steps.antt =====
-- The steps of the atomic writes from the temporary file on.
use osconfig.Base.{String, true, Option, none, some, ◌≡◌, ◌≢◌, refl, ◌⊎◌, arith}
use osconfig.Base.Dict.{lookup}
use osconfig.Resources.{File, World, Stream, Env}
use osconfig.Resources.Disk.{call, copy}
use osconfig.Resources.Disk.Calls.{
  copy-Alters, remove-Alters, copy-there, rename_failed, rename_done, rename_others,
}
use osconfig.Resources.Atomic.{discard, put_content, write_content, write_stream}

-- The file has the whole of the stream, which had the checksum asked for, if one was.
pub record Fetched (env : Env) (r : Stream) (checksum computed : String) (f : Option File)
    : Type 0 where
  pub file : File
  pub there : f ≡ some file
  pub whole : file.content ≡ r.text
  pub unbroken : r.broken ≡ none
  pub sum : computed ≡ env.sha256 r.text
  pub asked : (checksum ≡ "") ⊎ (env.equal_fold checksum computed ≡ true)

-- How a write of `path` by the temporary file `tmp` ends: no other file changes; after an error the file
-- is as before, and else it is `Done`.
pub record Whole (Done : Option File → Type 0) (path tmp : String) (before after : World)
    (e : Option String) : Type 0 where
  pub others : (q : String) → q ≢ path → q ≢ tmp → lookup q after.disk ≡ lookup q before.disk
  pub on_failure : e ≢ none → lookup path after.disk ≡ lookup path before.disk
  pub on_success : e ≡ none → Done (lookup path after.disk)

abbrev pub Holds : String → Option File → Type 0
Holds content f = (file : File) × (f ≡ some file) × (file.content ≡ content)

module _ (env : Env) where
  module _ (r : Stream) (checksum path tmp : String) (w : World) (n : path ≢ tmp) where
    w1 : World
    w1 = (copy env tmp r w).1

    w2 : World
    w2 = (call env w1).1

    pub write_stream_others :
        (q : String)
        → q ≢ path
        → q ≢ tmp
        → lookup q (write_stream env r checksum path tmp w).1.disk ≡ lookup q w.disk
    unfolding write_stream discard w1 w2
    write_stream_others q a b = ground (
      arith,
      copy-Alters env tmp r w q b,
      remove-Alters env tmp w1 q b,
      rename_others env tmp path w2 q a b,
    )

    pub write_stream_failed :
        (write_stream env r checksum path tmp w).0.1 ≢ none
        → lookup path (write_stream env r checksum path tmp w).1.disk ≡ lookup path w.disk
    unfolding write_stream discard w1 w2
    write_stream_failed e = ground (
      arith,
      copy-Alters env tmp r w path n,
      remove-Alters env tmp w1 path n,
      rename_failed env tmp path w2,
    )

    pub write_stream_done :
        {f : File}
        → lookup tmp w.disk ≡ some f
        → (write_stream env r checksum path tmp w).0.1 ≡ none
        → let end = write_stream env r checksum path tmp w in
          Fetched env r checksum end.0.0 (lookup path end.1.disk)
    unfolding write_stream discard w1 w2
    write_stream_done {f} there e = record {
      file = record f { content = r.text };
      there = ground (arith, copy-there env tmp r w there, rename_done env tmp path w2);
      whole = refl;
      unbroken = ground (arith, copy-there env tmp r w there);
      sum = ground arith;
      asked = ground arith;
    }

  module _ (content path tmp : String) (w : World) (n : path ≢ tmp) where
    text : Stream
    text = record { text = content; broken = none }

    x1 : World
    x1 = (call env (copy env tmp text w).1).1

    put_content_others :
        (q : String)
        → q ≢ path
        → q ≢ tmp
        → lookup q (put_content env content path tmp w).1.disk ≡ lookup q w.disk
    unfolding put_content text x1
    put_content_others q a b =
        ground (arith, copy-Alters env tmp text w q b, rename_others env tmp path x1 q a b)

    put_content_failed :
        (put_content env content path tmp w).0 ≢ none
        → lookup path (put_content env content path tmp w).1.disk ≡ lookup path w.disk
    unfolding put_content text x1
    put_content_failed e =
        ground (arith, copy-Alters env tmp text w path n, rename_failed env tmp path x1)

    put_content_done :
        {f : File}
        → lookup tmp w.disk ≡ some f
        → (put_content env content path tmp w).0 ≡ none
        → lookup path (put_content env content path tmp w).1.disk
          ≡ some (record f { content = content })
    unfolding put_content text x1
    put_content_done there e =
        ground (arith, copy-there env tmp text w there, rename_done env tmp path x1)

    pub write_content-Whole :
        {f : File}
        → lookup tmp w.disk ≡ some f
        → Whole
            (Holds content)
            path
            tmp
            w
            (write_content env content path tmp w).1
            (write_content env content path tmp w).0
    unfolding write_content discard
    write_content-Whole {f} there =
        let y = (put_content env content path tmp w).1 in
        record {
          others = λ q a b. ground (arith, put_content_others q a b, remove-Alters env tmp y q b);
          on_failure = λ e. ground (arith, put_content_failed, remove-Alters env tmp y path n);
          on_success =
              λ e. (record f { content = content }, ground (arith, put_content_done there), refl);
        }
