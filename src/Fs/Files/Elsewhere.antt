-- ===== src/Fs/Files/Elsewhere.antt =====
-- What the handlers of one file in cloudfs/cloudfs.c leave alone on the disk and in the cloud.
use cloudfs.Base.{ℕ, ◌≡◌, refl, ap, ◌∙◌, Bool, true, false, Option, some, List}
use cloudfs.Fs.Names.{
  FilePath, Key, Config, same_name, get_key, get_absolute_path, get_metadata_path,
}
use cloudfs.Fs.Os.{Stat}
use cloudfs.Fs.Disk.{Node, Disk, HasRoom, saved, put_node, put_object, stat_of}
use cloudfs.Fs.Disk.Updates.{at-other}
use cloudfs.Fs.Files.Archive.{archived}
use cloudfs.Fs.Files.Release.{forgotten, released}

module _ (cfg : Config) (path : FilePath) where
  -- Nothing differs but at the local path, at the metadata path and at the key.
  pub record SameElsewhere (d d' : Disk) : Type 0 where
    pub rooms : d'.room ≡ d.room
    pub nodes :
        (q : FilePath)
        → same_name (get_absolute_path cfg path) q ≡ false
        → same_name (get_metadata_path cfg path) q ≡ false
        → d'.node q ≡ d.node q
    pub objects : (k : Key) → same_name (get_key path) k ≡ false → d'.object k ≡ d.object k

  pub unchanged : (d : Disk) → SameElsewhere d d
  unchanged d = record { rooms = refl; nodes = λ q h k. refl; objects = λ k h. refl }

  pub changed_twice :
      {d d' d'' : Disk} → SameElsewhere d d' → SameElsewhere d' d'' → SameElsewhere d d''
  changed_twice a b = record {
    rooms = b.rooms ∙ a.rooms;
    nodes = λ q h k. b.nodes q h k ∙ a.nodes q h k;
    objects = λ k h. b.objects k h ∙ a.objects k h;
  }

  pub room_elsewhere : {d d' : Disk} → SameElsewhere d d' → HasRoom cfg path d → HasRoom cfg path d'
  room_elsewhere same (here, there) = (
    ap (λ r. r (get_absolute_path cfg path)) same.rooms ∙ here,
    ap (λ r. r (get_metadata_path cfg path)) same.rooms ∙ there,
  )

  pub local_elsewhere :
      (n : Option Node) (d : Disk) → SameElsewhere d (put_node (get_absolute_path cfg path) n d)
  local_elsewhere n d = record {
    rooms = refl;
    nodes = λ q h k. at-other (get_absolute_path cfg path) n d.node q h;
    objects = λ k h. refl;
  }

  metadata_elsewhere :
      (n : Option Node) (d : Disk) → SameElsewhere d (put_node (get_metadata_path cfg path) n d)
  metadata_elsewhere n d = record {
    rooms = refl;
    nodes = λ q h k. at-other (get_metadata_path cfg path) n d.node q k;
    objects = λ k h. refl;
  }

  object_elsewhere :
      (bytes : Option (List ℕ)) (d : Disk) → SameElsewhere d (put_object (get_key path) bytes d)
  object_elsewhere bytes d = record {
    rooms = refl;
    nodes = λ q h k. refl;
    objects = λ k h. at-other (get_key path) bytes d.object k h;
  }

  pub forgotten_elsewhere : (d : Disk) → SameElsewhere d (forgotten cfg path d)
  forgotten_elsewhere d = changed_twice (object_elsewhere _ d) (metadata_elsewhere _ _)

  archived_elsewhere :
      (bytes : List ℕ) (st : Stat) (d : Disk) → SameElsewhere d (archived cfg path bytes st d)
  archived_elsewhere bytes st d =
      changed_twice (object_elsewhere (some bytes) d)
        (changed_twice (metadata_elsewhere (some (saved st)) _) (local_elsewhere _ _))

  pub released_elsewhere :
      (proxy dirty large : Bool) (bytes : List ℕ) (o : ℕ) (d : Disk)
      → SameElsewhere d (released cfg path proxy dirty large bytes o d)
  released_elsewhere true false large bytes o d = local_elsewhere _ d
  released_elsewhere true true true bytes o d = archived_elsewhere bytes (stat_of bytes o) d
  released_elsewhere true true false bytes o d = forgotten_elsewhere d
  released_elsewhere false dirty true bytes o d = archived_elsewhere bytes (stat_of bytes o) d
  released_elsewhere false dirty false bytes o d = unchanged d
