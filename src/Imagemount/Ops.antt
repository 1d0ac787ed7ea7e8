-- ===== src/Imagemount/Ops.antt =====
-- The functions of src/libimage.c that src/imagemount.c calls, as the table that requests take.
use partclone_utils.Sysdep.{Sysdep}
use partclone_utils.Image.{ImageType, ImageHandle}
use partclone_utils.Image.Dispatch.{image_seek, image_readblocks, image_writeblocks}
use partclone_utils.Imagemount.{ImageOps}

abbrev pub dispatch_ops : {W N : Type 0} → Sysdep W → ImageType W N → ImageOps W (ImageHandle N)
dispatch_ops sys table = record {
  seek = image_seek sys table;
  readblocks = image_readblocks sys table;
  writeblocks = image_writeblocks sys table;
}
