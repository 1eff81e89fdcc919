-- ===== src/Lib.antt =====
-- CyPRUS watches cameras with a modified version of the Motion daemon (board/motion/motion_modified),
-- and sends the pictures that it keeps to a server. This library models the core of that daemon, in
-- C: how a picture is compared with what came before, how pictures are kept in a ring and saved, how
-- they are turned, labelled with text and streamed, and how the daemon is configured.
--
-- The parts and their files:
-- - Alg (board/motion/motion_modified/alg.c). Alg.Diff: alg_diff_standard, alg_diff_fast and
--   alg_diff, which make the motion picture and count its pixels. Alg.Morph: erode9, erode5, dilate9
--   and dilate5, which clean it. Alg.Reference: alg_update_reference_frame. Alg.Tune: alg_noise_tune,
--   alg_threshold_tune and alg_lightswitch. Alg.Smartmask: alg_tune_smartmask. Alg.Switch:
--   alg_switchfilter. Alg.Label: iflood and alg_labeling. Alg.Despeckle: alg_despeckle, which calls
--   Alg.Morph and Alg.Label. Alg.Locate: alg_locate_center_size, alg_draw_location and alg_draw_red_location.
-- - Motion (board/motion/motion_modified/motion.c and motion.h). Motion: struct image_data and the
--   part of struct context that changes. Motion.Ring: image_ring_resize, image_ring_destroy and the
--   step of motion_loop to the next picture. Motion.Save: process_image_ring, save_three_preview and
--   image_save_as_preview. Motion.Control: motion_detected and the section of motion_loop that
--   controls actions and events; it calls Motion.Save, which draws with Alg.Locate. Motion.Format:
--   mystrftime, up to its call of strftime.
-- - Rotate (board/motion/motion_modified/rotate.c): rotate_init and rotate_map, with rot90cw, rot90ccw
--   and reverse_inplace_quad.
-- - Stream (board/motion/motion_modified/stream.c and stream.h): the clients of the web stream and the
--   buffers that they share, with stream_put, stream_flush, stream_add_client, stream_add_write,
--   stream_check_write and stream_stop.
-- - Video (board/motion/motion_modified/video_common.c): vid_do_autobright,
--   conv_yuv422to420p and conv_uyvyto420p.
-- - Conf (board/motion/motion_modified/conf.c and conf.h). Conf.Line: how conf_process cuts a line
--   into a command and an argument. Conf.Options: the contexts, config_params, conf_cmdparse, and the
--   copy and print functions; Conf.Number: atoi and sprintf's %d. Conf.File: conf_process and
--   config_thread. Conf.Print: conf_print. The other modules of Conf hold the proofs.
-- - Web (board/motion/motion_modified/webhttpd.c). Web.Decode: url_decode. Web.Replace: replace.
-- - Draw (board/motion/motion_modified/draw.c): draw_textn, draw_text and initialize_chars. The font
--   and what stands behind the array of 127 characters are parameters.
-- - Picture (board/motion/motion_modified/picture.c): overlay_smartmask, overlay_fixed_mask,
--   overlay_largest_label and put_ppm_bgr24_file. Picture.Pgm: get_pgm.
-- - Prelude: what the parts share.
--
-- How state corresponds: a function that writes through pointers takes the buffers as lists and
-- returns the new ones, in a record that is named for what it holds. A pointer into a buffer is
-- its index; a write outside a list leaves it alone and a read outside gives 0 (an empty picture
-- in the ring), where C has no meaning: the theorems ask for the room that a routine needs, or
-- state that it stays inside. put_ppm_bgr24_file and mystrftime return none for an access outside
-- their buffers. An unsigned char is a number with its remainder by 256 written out where a result
-- may not fit; int values are numbers without bound, as the values in question stay far below
-- 2^31. The previews have buffers of their own, so that they are copies; current_image is the
-- place of the ring that image_ring_in names. movie_last_shot is an Option, none for -1. Calls of
-- the handlers of event.c are recorded in a list, and what the handlers of a new event and of its
-- end write back is part of Motion.Control, but for movie_fps, which is a setting here. Whether a
-- movie can be opened is a setting too. Whether `char` is signed is a parameter of alg_diff_fast.
--
-- The stream's buffers stand in a heap, where an address is a place and a freed place stays empty; a
-- read or release of an empty place, and a division by zero, end the run with none. What write()
-- answers is a parameter of the model that keeps a world of its own, and the clock, the socket of a
-- waiting client and the bytes of a picture's answer are arguments. The Segment fields of iflood are
-- short in C, and numbers here: the sides of a picture are below 32768.
--
-- In Conf and Web a string is the part of a buffer before its first zero, and the bytes behind it
-- are those of earlier uses; an access outside the buffer ends the run with none. The fields of a
-- context are two maps, by the place that conf_value names: the `int` ones and the strings. An open
-- file is the bytes that are left, and opening a file by its name, the table config_params, the font
-- draw_table, what the line buffers and new memory hold at first and what sscanf reads are
-- parameters. Unsigned numbers of url_decode, replace and draw_textn have their wrap-around written
-- out. malloc and realloc do not fail, and a pointer inside an allocation that is passed to realloc
-- ends the run.
--
-- Loops with a count are `rounds`. These loops run on fuel: the do loop of iflood on the columns
-- of its segment, as each round moves right; its loop over the stack on three times the pixels, as
-- each pixel that gets its label pays for three segments; the loop of stream_flush on the bytes
-- that the clients wait for, as each pass with work done leaves fewer; the one of alg_diff_fast on
-- the number of pixels, as each round takes one pixel off at least; the one of
-- reverse_inplace_quad on the size of the block, as each round brings its two ends closer by eight
-- bytes; and the one of process_image_ring on the size of the ring and one more, as it ends when
-- it comes round to the picture stored last; the one of conf_process on the bytes of the file, as
-- each line has one at least; the one of get_pgm over comments in the same way; the one of
-- mystrftime on the bytes of the format's buffer; the one of url_decode on the bytes of its
-- buffer, as its pointer moves on in each round; those of replace and draw_text on one more than
-- the bytes of the text, as each occurrence takes one byte at least; and the digits of a number on
-- ten, which every int has room in.
--
-- Not modelled: the MMX alternative of alg_diff_standard; the authentication of stream clients and
-- the listening socket; the calls that draw texts on pictures; camera tracking and area
-- detection; the rest of motion_loop (timing, capture, snapshots, time lapse); the command line and
-- the search for the configuration file; the pages of the web control. Device and network
-- input and output of pictures by libjpeg and of movies (the other C files) are left out, and
-- so are the programs in other languages (CyPRUSserver, cyprusGui, board/sendimage).
pub mod Prelude
pub mod Alg
pub mod Rotate
pub mod Motion
pub mod Stream
pub mod Video
pub mod Conf
pub mod Web
pub mod Draw
pub mod Picture
